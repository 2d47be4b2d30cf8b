-- ===== src/Publishers/FromString.antt =====
-- src/publishers.cpp: `FromString<Publisher>`.
use databento_cpp.Base.{Option, [], ◌∷◌}
use Prim.Native.String.{String}
use databento_cpp.Enums.{Names, first_match}
use databento_cpp.Publishers.Publisher.{Publisher}

-- The texts that `FromString` compares with, in its order.
abbrev pub names : Names Publisher
names =
    ("GLBX.MDP3.GLBX", Publisher.glbx_mdp3_glbx)
    ∷ ("XNAS.ITCH.XNAS", Publisher.xnas_itch_xnas)
    ∷ ("XBOS.ITCH.XBOS", Publisher.xbos_itch_xbos)
    ∷ ("XPSX.ITCH.XPSX", Publisher.xpsx_itch_xpsx)
    ∷ ("BATS.PITCH.BATS", Publisher.bats_pitch_bats)
    ∷ ("BATY.PITCH.BATY", Publisher.baty_pitch_baty)
    ∷ ("EDGA.PITCH.EDGA", Publisher.edga_pitch_edga)
    ∷ ("EDGX.PITCH.EDGX", Publisher.edgx_pitch_edgx)
    ∷ ("XNYS.PILLAR.XNYS", Publisher.xnys_pillar_xnys)
    ∷ ("XCIS.PILLAR.XCIS", Publisher.xcis_pillar_xcis)
    ∷ ("XASE.PILLAR.XASE", Publisher.xase_pillar_xase)
    ∷ ("XCHI.PILLAR.XCHI", Publisher.xchi_pillar_xchi)
    ∷ ("XCIS.BBO.XCIS", Publisher.xcis_bbo_xcis)
    ∷ ("XCIS.TRADES.XCIS", Publisher.xcis_trades_xcis)
    ∷ ("MEMX.MEMOIR.MEMX", Publisher.memx_memoir_memx)
    ∷ ("EPRL.DOM.EPRL", Publisher.eprl_dom_eprl)
    ∷ ("XNAS.NLS.FINN", Publisher.xnas_nls_finn)
    ∷ ("XNAS.NLS.FINC", Publisher.xnas_nls_finc)
    ∷ ("XNYS.TRADES.FINY", Publisher.xnys_trades_finy)
    ∷ ("OPRA.PILLAR.AMXO", Publisher.opra_pillar_amxo)
    ∷ ("OPRA.PILLAR.XBOX", Publisher.opra_pillar_xbox)
    ∷ ("OPRA.PILLAR.XCBO", Publisher.opra_pillar_xcbo)
    ∷ ("OPRA.PILLAR.EMLD", Publisher.opra_pillar_emld)
    ∷ ("OPRA.PILLAR.EDGO", Publisher.opra_pillar_edgo)
    ∷ ("OPRA.PILLAR.GMNI", Publisher.opra_pillar_gmni)
    ∷ ("OPRA.PILLAR.XISX", Publisher.opra_pillar_xisx)
    ∷ ("OPRA.PILLAR.MCRY", Publisher.opra_pillar_mcry)
    ∷ ("OPRA.PILLAR.XMIO", Publisher.opra_pillar_xmio)
    ∷ ("OPRA.PILLAR.ARCO", Publisher.opra_pillar_arco)
    ∷ ("OPRA.PILLAR.OPRA", Publisher.opra_pillar_opra)
    ∷ ("OPRA.PILLAR.MPRL", Publisher.opra_pillar_mprl)
    ∷ ("OPRA.PILLAR.XNDQ", Publisher.opra_pillar_xndq)
    ∷ ("OPRA.PILLAR.XBXO", Publisher.opra_pillar_xbxo)
    ∷ ("OPRA.PILLAR.C2OX", Publisher.opra_pillar_c2_ox)
    ∷ ("OPRA.PILLAR.XPHL", Publisher.opra_pillar_xphl)
    ∷ ("OPRA.PILLAR.BATO", Publisher.opra_pillar_bato)
    ∷ ("OPRA.PILLAR.MXOP", Publisher.opra_pillar_mxop)
    ∷ ("IEXG.TOPS.IEXG", Publisher.iexg_tops_iexg)
    ∷ ("DBEQ.BASIC.XCHI", Publisher.dbeq_basic_xchi)
    ∷ ("DBEQ.BASIC.XCIS", Publisher.dbeq_basic_xcis)
    ∷ ("DBEQ.BASIC.IEXG", Publisher.dbeq_basic_iexg)
    ∷ ("DBEQ.BASIC.EPRL", Publisher.dbeq_basic_eprl)
    ∷ ("ARCX.PILLAR.ARCX", Publisher.arcx_pillar_arcx)
    ∷ ("XNYS.BBO.XNYS", Publisher.xnys_bbo_xnys)
    ∷ ("XNYS.TRADES.XNYS", Publisher.xnys_trades_xnys)
    ∷ ("XNAS.QBBO.XNAS", Publisher.xnas_qbbo_xnas)
    ∷ ("XNAS.NLS.XNAS", Publisher.xnas_nls_xnas)
    ∷ ("EQUS.PLUS.XCHI", Publisher.equs_plus_xchi)
    ∷ ("EQUS.PLUS.XCIS", Publisher.equs_plus_xcis)
    ∷ ("EQUS.PLUS.IEXG", Publisher.equs_plus_iexg)
    ∷ ("EQUS.PLUS.EPRL", Publisher.equs_plus_eprl)
    ∷ ("EQUS.PLUS.XNAS", Publisher.equs_plus_xnas)
    ∷ ("EQUS.PLUS.XNYS", Publisher.equs_plus_xnys)
    ∷ ("EQUS.PLUS.FINN", Publisher.equs_plus_finn)
    ∷ ("EQUS.PLUS.FINY", Publisher.equs_plus_finy)
    ∷ ("EQUS.PLUS.FINC", Publisher.equs_plus_finc)
    ∷ ("IFEU.IMPACT.IFEU", Publisher.ifeu_impact_ifeu)
    ∷ ("NDEX.IMPACT.NDEX", Publisher.ndex_impact_ndex)
    ∷ ("DBEQ.BASIC.DBEQ", Publisher.dbeq_basic_dbeq)
    ∷ ("EQUS.PLUS.EQUS", Publisher.equs_plus_equs)
    ∷ ("OPRA.PILLAR.SPHR", Publisher.opra_pillar_sphr)
    ∷ ("EQUS.ALL.XCHI", Publisher.equs_all_xchi)
    ∷ ("EQUS.ALL.XCIS", Publisher.equs_all_xcis)
    ∷ ("EQUS.ALL.IEXG", Publisher.equs_all_iexg)
    ∷ ("EQUS.ALL.EPRL", Publisher.equs_all_eprl)
    ∷ ("EQUS.ALL.XNAS", Publisher.equs_all_xnas)
    ∷ ("EQUS.ALL.XNYS", Publisher.equs_all_xnys)
    ∷ ("EQUS.ALL.FINN", Publisher.equs_all_finn)
    ∷ ("EQUS.ALL.FINY", Publisher.equs_all_finy)
    ∷ ("EQUS.ALL.FINC", Publisher.equs_all_finc)
    ∷ ("EQUS.ALL.BATS", Publisher.equs_all_bats)
    ∷ ("EQUS.ALL.BATY", Publisher.equs_all_baty)
    ∷ ("EQUS.ALL.EDGA", Publisher.equs_all_edga)
    ∷ ("EQUS.ALL.EDGX", Publisher.equs_all_edgx)
    ∷ ("EQUS.ALL.XBOS", Publisher.equs_all_xbos)
    ∷ ("EQUS.ALL.XPSX", Publisher.equs_all_xpsx)
    ∷ ("EQUS.ALL.MEMX", Publisher.equs_all_memx)
    ∷ ("EQUS.ALL.XASE", Publisher.equs_all_xase)
    ∷ ("EQUS.ALL.ARCX", Publisher.equs_all_arcx)
    ∷ ("EQUS.ALL.LTSE", Publisher.equs_all_ltse)
    ∷ ("XNAS.BASIC.XNAS", Publisher.xnas_basic_xnas)
    ∷ ("XNAS.BASIC.FINN", Publisher.xnas_basic_finn)
    ∷ ("XNAS.BASIC.FINC", Publisher.xnas_basic_finc)
    ∷ ("IFEU.IMPACT.XOFF", Publisher.ifeu_impact_xoff)
    ∷ ("NDEX.IMPACT.XOFF", Publisher.ndex_impact_xoff)
    ∷ ("XNAS.NLS.XBOS", Publisher.xnas_nls_xbos)
    ∷ ("XNAS.NLS.XPSX", Publisher.xnas_nls_xpsx)
    ∷ ("XNAS.BASIC.XBOS", Publisher.xnas_basic_xbos)
    ∷ ("XNAS.BASIC.XPSX", Publisher.xnas_basic_xpsx)
    ∷ ("EQUS.SUMMARY.EQUS", Publisher.equs_summary_equs)
    ∷ ("XCIS.TRADESBBO.XCIS", Publisher.xcis_tradesbbo_xcis)
    ∷ ("XNYS.TRADESBBO.XNYS", Publisher.xnys_tradesbbo_xnys)
    ∷ ("XNAS.BASIC.EQUS", Publisher.xnas_basic_equs)
    ∷ ("EQUS.ALL.EQUS", Publisher.equs_all_equs)
    ∷ ("EQUS.MINI.EQUS", Publisher.equs_mini_equs)
    ∷ ("XNYS.TRADES.EQUS", Publisher.xnys_trades_equs)
    ∷ ("IFUS.IMPACT.IFUS", Publisher.ifus_impact_ifus)
    ∷ ("IFUS.IMPACT.XOFF", Publisher.ifus_impact_xoff)
    ∷ ("IFLL.IMPACT.IFLL", Publisher.ifll_impact_ifll)
    ∷ ("IFLL.IMPACT.XOFF", Publisher.ifll_impact_xoff)
    ∷ ("XEUR.EOBI.XEUR", Publisher.xeur_eobi_xeur)
    ∷ ("XEEE.EOBI.XEEE", Publisher.xeee_eobi_xeee)
    ∷ ("XEUR.EOBI.XOFF", Publisher.xeur_eobi_xoff)
    ∷ ("XEEE.EOBI.XOFF", Publisher.xeee_eobi_xoff)
    ∷ ("XCBF.PITCH.XCBF", Publisher.xcbf_pitch_xcbf)
    ∷ ("XCBF.PITCH.XOFF", Publisher.xcbf_pitch_xoff)
    ∷ ("OCEA.MEMOIR.OCEA", Publisher.ocea_memoir_ocea)
    ∷ ("OPRA.PILLAR.MXTO", Publisher.opra_pillar_mxto)
    ∷ ("OPRA.PILLAR.IEXO", Publisher.opra_pillar_iexo)
    ∷ ("MAIN.CGIF.MAIN", Publisher.main_cgif_main)
    ∷ ("EQUS.SIP.XASE", Publisher.equs_sip_xase)
    ∷ ("EQUS.SIP.XBOS", Publisher.equs_sip_xbos)
    ∷ ("EQUS.SIP.XCIS", Publisher.equs_sip_xcis)
    ∷ ("EQUS.SIP.TXSE", Publisher.equs_sip_txse)
    ∷ ("EQUS.SIP.24EQ", Publisher.equs_sip24_eq)
    ∷ ("EQUS.SIP.EPRL", Publisher.equs_sip_eprl)
    ∷ ("EQUS.SIP.XISX", Publisher.equs_sip_xisx)
    ∷ ("EQUS.SIP.EDGA", Publisher.equs_sip_edga)
    ∷ ("EQUS.SIP.EDGX", Publisher.equs_sip_edgx)
    ∷ ("EQUS.SIP.LTSE", Publisher.equs_sip_ltse)
    ∷ ("EQUS.SIP.XCHI", Publisher.equs_sip_xchi)
    ∷ ("EQUS.SIP.XNYS", Publisher.equs_sip_xnys)
    ∷ ("EQUS.SIP.ARCX", Publisher.equs_sip_arcx)
    ∷ ("EQUS.SIP.XNAS", Publisher.equs_sip_xnas)
    ∷ ("EQUS.SIP.MEMX", Publisher.equs_sip_memx)
    ∷ ("EQUS.SIP.IEXG", Publisher.equs_sip_iexg)
    ∷ ("EQUS.SIP.XPSX", Publisher.equs_sip_xpsx)
    ∷ ("EQUS.SIP.BATY", Publisher.equs_sip_baty)
    ∷ ("EQUS.SIP.BATS", Publisher.equs_sip_bats)
    ∷ ("EQUS.SIP.FINN", Publisher.equs_sip_finn)
    ∷ ("EQUS.SIP.FINY", Publisher.equs_sip_finy)
    ∷ ("EQUS.SIP.FINC", Publisher.equs_sip_finc)
    ∷ ("EQUS.SIP.XADF", Publisher.equs_sip_xadf)
    ∷ ("EQUS.SIP.CTA", Publisher.equs_sip_cta)
    ∷ ("EQUS.SIP.UTP", Publisher.equs_sip_utp)
    ∷ ("MSCI.CGIF.MSCI", Publisher.msci_cgif_msci)
    ∷ ("FTSE.CGIF.FTSE", Publisher.ftse_cgif_ftse)
    ∷ ("INAV.CGIF.INAV", Publisher.inav_cgif_inav)
    ∷ ("MSTAR.CGIF.MSTAR", Publisher.mstar_cgif_mstar)
    ∷ ("CCCY.CGIF.CCCY", Publisher.cccy_cgif_cccy)
    ∷ ("CGI.CGIF.CGI", Publisher.cgi_cgif_cgi)
    ∷ ("MAIN.CGIF.DEF", Publisher.main_cgif_def)
    ∷ ("XTKS.FLEX.XTKS", Publisher.xtks_flex_xtks)
    ∷ ("XTKT.ITCH.XTKT", Publisher.xtkt_itch_xtkt)
    ∷ ("XOSE.ITCH.XOSE", Publisher.xose_itch_xose)
    ∷ []

-- `none` for the `InvalidArgumentError`.
unfoldable pub from_string : String → Option Publisher
from_string str = first_match str names
