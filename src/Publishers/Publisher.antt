-- ===== src/Publishers/Publisher.antt =====
-- include/databento/publishers.hpp, src/publishers.cpp: `Publisher`, the publishers, each a dataset of a venue.
use databento_cpp.Base.{ℕ, Bool, true, false}
use Prim.Native.String.{String}

-- The enumerators, and the values of the underlying type that have none.
pub data Publisher : Type 0 where
  glbx_mdp3_glbx xnas_itch_xnas xbos_itch_xbos xpsx_itch_xpsx bats_pitch_bats : Publisher
  baty_pitch_baty edga_pitch_edga edgx_pitch_edgx xnys_pillar_xnys xcis_pillar_xcis : Publisher
  xase_pillar_xase xchi_pillar_xchi xcis_bbo_xcis xcis_trades_xcis memx_memoir_memx : Publisher
  eprl_dom_eprl xnas_nls_finn xnas_nls_finc xnys_trades_finy opra_pillar_amxo : Publisher
  opra_pillar_xbox opra_pillar_xcbo opra_pillar_emld opra_pillar_edgo opra_pillar_gmni : Publisher
  opra_pillar_xisx opra_pillar_mcry opra_pillar_xmio opra_pillar_arco opra_pillar_opra : Publisher
  opra_pillar_mprl opra_pillar_xndq opra_pillar_xbxo opra_pillar_c2_ox opra_pillar_xphl : Publisher
  opra_pillar_bato opra_pillar_mxop iexg_tops_iexg dbeq_basic_xchi dbeq_basic_xcis : Publisher
  dbeq_basic_iexg dbeq_basic_eprl arcx_pillar_arcx xnys_bbo_xnys xnys_trades_xnys : Publisher
  xnas_qbbo_xnas xnas_nls_xnas equs_plus_xchi equs_plus_xcis equs_plus_iexg : Publisher
  equs_plus_eprl equs_plus_xnas equs_plus_xnys equs_plus_finn equs_plus_finy : Publisher
  equs_plus_finc ifeu_impact_ifeu ndex_impact_ndex dbeq_basic_dbeq equs_plus_equs : Publisher
  opra_pillar_sphr equs_all_xchi equs_all_xcis equs_all_iexg equs_all_eprl equs_all_xnas : Publisher
  equs_all_xnys equs_all_finn equs_all_finy equs_all_finc equs_all_bats equs_all_baty : Publisher
  equs_all_edga equs_all_edgx equs_all_xbos equs_all_xpsx equs_all_memx equs_all_xase : Publisher
  equs_all_arcx equs_all_ltse xnas_basic_xnas xnas_basic_finn xnas_basic_finc : Publisher
  ifeu_impact_xoff ndex_impact_xoff xnas_nls_xbos xnas_nls_xpsx xnas_basic_xbos : Publisher
  xnas_basic_xpsx equs_summary_equs xcis_tradesbbo_xcis xnys_tradesbbo_xnys : Publisher
  xnas_basic_equs equs_all_equs equs_mini_equs xnys_trades_equs ifus_impact_ifus : Publisher
  ifus_impact_xoff ifll_impact_ifll ifll_impact_xoff xeur_eobi_xeur xeee_eobi_xeee : Publisher
  xeur_eobi_xoff xeee_eobi_xoff xcbf_pitch_xcbf xcbf_pitch_xoff ocea_memoir_ocea : Publisher
  opra_pillar_mxto opra_pillar_iexo main_cgif_main equs_sip_xase equs_sip_xbos : Publisher
  equs_sip_xcis equs_sip_txse equs_sip24_eq equs_sip_eprl equs_sip_xisx equs_sip_edga : Publisher
  equs_sip_edgx equs_sip_ltse equs_sip_xchi equs_sip_xnys equs_sip_arcx equs_sip_xnas : Publisher
  equs_sip_memx equs_sip_iexg equs_sip_xpsx equs_sip_baty equs_sip_bats equs_sip_finn : Publisher
  equs_sip_finy equs_sip_finc equs_sip_xadf equs_sip_cta equs_sip_utp msci_cgif_msci : Publisher
  ftse_cgif_ftse inav_cgif_inav mstar_cgif_mstar cccy_cgif_cccy cgi_cgif_cgi : Publisher
  main_cgif_def xtks_flex_xtks xtkt_itch_xtkt xose_itch_xose : Publisher
  other : ℕ → Publisher

abbrev pub is_enumerator : Publisher → Bool
is_enumerator (other value) = false
is_enumerator _ = true

unfoldable pub to_string : Publisher → String
to_string glbx_mdp3_glbx = "GLBX.MDP3.GLBX"
to_string xnas_itch_xnas = "XNAS.ITCH.XNAS"
to_string xbos_itch_xbos = "XBOS.ITCH.XBOS"
to_string xpsx_itch_xpsx = "XPSX.ITCH.XPSX"
to_string bats_pitch_bats = "BATS.PITCH.BATS"
to_string baty_pitch_baty = "BATY.PITCH.BATY"
to_string edga_pitch_edga = "EDGA.PITCH.EDGA"
to_string edgx_pitch_edgx = "EDGX.PITCH.EDGX"
to_string xnys_pillar_xnys = "XNYS.PILLAR.XNYS"
to_string xcis_pillar_xcis = "XCIS.PILLAR.XCIS"
to_string xase_pillar_xase = "XASE.PILLAR.XASE"
to_string xchi_pillar_xchi = "XCHI.PILLAR.XCHI"
to_string xcis_bbo_xcis = "XCIS.BBO.XCIS"
to_string xcis_trades_xcis = "XCIS.TRADES.XCIS"
to_string memx_memoir_memx = "MEMX.MEMOIR.MEMX"
to_string eprl_dom_eprl = "EPRL.DOM.EPRL"
to_string xnas_nls_finn = "XNAS.NLS.FINN"
to_string xnas_nls_finc = "XNAS.NLS.FINC"
to_string xnys_trades_finy = "XNYS.TRADES.FINY"
to_string opra_pillar_amxo = "OPRA.PILLAR.AMXO"
to_string opra_pillar_xbox = "OPRA.PILLAR.XBOX"
to_string opra_pillar_xcbo = "OPRA.PILLAR.XCBO"
to_string opra_pillar_emld = "OPRA.PILLAR.EMLD"
to_string opra_pillar_edgo = "OPRA.PILLAR.EDGO"
to_string opra_pillar_gmni = "OPRA.PILLAR.GMNI"
to_string opra_pillar_xisx = "OPRA.PILLAR.XISX"
to_string opra_pillar_mcry = "OPRA.PILLAR.MCRY"
to_string opra_pillar_xmio = "OPRA.PILLAR.XMIO"
to_string opra_pillar_arco = "OPRA.PILLAR.ARCO"
to_string opra_pillar_opra = "OPRA.PILLAR.OPRA"
to_string opra_pillar_mprl = "OPRA.PILLAR.MPRL"
to_string opra_pillar_xndq = "OPRA.PILLAR.XNDQ"
to_string opra_pillar_xbxo = "OPRA.PILLAR.XBXO"
to_string opra_pillar_c2_ox = "OPRA.PILLAR.C2OX"
to_string opra_pillar_xphl = "OPRA.PILLAR.XPHL"
to_string opra_pillar_bato = "OPRA.PILLAR.BATO"
to_string opra_pillar_mxop = "OPRA.PILLAR.MXOP"
to_string iexg_tops_iexg = "IEXG.TOPS.IEXG"
to_string dbeq_basic_xchi = "DBEQ.BASIC.XCHI"
to_string dbeq_basic_xcis = "DBEQ.BASIC.XCIS"
to_string dbeq_basic_iexg = "DBEQ.BASIC.IEXG"
to_string dbeq_basic_eprl = "DBEQ.BASIC.EPRL"
to_string arcx_pillar_arcx = "ARCX.PILLAR.ARCX"
to_string xnys_bbo_xnys = "XNYS.BBO.XNYS"
to_string xnys_trades_xnys = "XNYS.TRADES.XNYS"
to_string xnas_qbbo_xnas = "XNAS.QBBO.XNAS"
to_string xnas_nls_xnas = "XNAS.NLS.XNAS"
to_string equs_plus_xchi = "EQUS.PLUS.XCHI"
to_string equs_plus_xcis = "EQUS.PLUS.XCIS"
to_string equs_plus_iexg = "EQUS.PLUS.IEXG"
to_string equs_plus_eprl = "EQUS.PLUS.EPRL"
to_string equs_plus_xnas = "EQUS.PLUS.XNAS"
to_string equs_plus_xnys = "EQUS.PLUS.XNYS"
to_string equs_plus_finn = "EQUS.PLUS.FINN"
to_string equs_plus_finy = "EQUS.PLUS.FINY"
to_string equs_plus_finc = "EQUS.PLUS.FINC"
to_string ifeu_impact_ifeu = "IFEU.IMPACT.IFEU"
to_string ndex_impact_ndex = "NDEX.IMPACT.NDEX"
to_string dbeq_basic_dbeq = "DBEQ.BASIC.DBEQ"
to_string equs_plus_equs = "EQUS.PLUS.EQUS"
to_string opra_pillar_sphr = "OPRA.PILLAR.SPHR"
to_string equs_all_xchi = "EQUS.ALL.XCHI"
to_string equs_all_xcis = "EQUS.ALL.XCIS"
to_string equs_all_iexg = "EQUS.ALL.IEXG"
to_string equs_all_eprl = "EQUS.ALL.EPRL"
to_string equs_all_xnas = "EQUS.ALL.XNAS"
to_string equs_all_xnys = "EQUS.ALL.XNYS"
to_string equs_all_finn = "EQUS.ALL.FINN"
to_string equs_all_finy = "EQUS.ALL.FINY"
to_string equs_all_finc = "EQUS.ALL.FINC"
to_string equs_all_bats = "EQUS.ALL.BATS"
to_string equs_all_baty = "EQUS.ALL.BATY"
to_string equs_all_edga = "EQUS.ALL.EDGA"
to_string equs_all_edgx = "EQUS.ALL.EDGX"
to_string equs_all_xbos = "EQUS.ALL.XBOS"
to_string equs_all_xpsx = "EQUS.ALL.XPSX"
to_string equs_all_memx = "EQUS.ALL.MEMX"
to_string equs_all_xase = "EQUS.ALL.XASE"
to_string equs_all_arcx = "EQUS.ALL.ARCX"
to_string equs_all_ltse = "EQUS.ALL.LTSE"
to_string xnas_basic_xnas = "XNAS.BASIC.XNAS"
to_string xnas_basic_finn = "XNAS.BASIC.FINN"
to_string xnas_basic_finc = "XNAS.BASIC.FINC"
to_string ifeu_impact_xoff = "IFEU.IMPACT.XOFF"
to_string ndex_impact_xoff = "NDEX.IMPACT.XOFF"
to_string xnas_nls_xbos = "XNAS.NLS.XBOS"
to_string xnas_nls_xpsx = "XNAS.NLS.XPSX"
to_string xnas_basic_xbos = "XNAS.BASIC.XBOS"
to_string xnas_basic_xpsx = "XNAS.BASIC.XPSX"
to_string equs_summary_equs = "EQUS.SUMMARY.EQUS"
to_string xcis_tradesbbo_xcis = "XCIS.TRADESBBO.XCIS"
to_string xnys_tradesbbo_xnys = "XNYS.TRADESBBO.XNYS"
to_string xnas_basic_equs = "XNAS.BASIC.EQUS"
to_string equs_all_equs = "EQUS.ALL.EQUS"
to_string equs_mini_equs = "EQUS.MINI.EQUS"
to_string xnys_trades_equs = "XNYS.TRADES.EQUS"
to_string ifus_impact_ifus = "IFUS.IMPACT.IFUS"
to_string ifus_impact_xoff = "IFUS.IMPACT.XOFF"
to_string ifll_impact_ifll = "IFLL.IMPACT.IFLL"
to_string ifll_impact_xoff = "IFLL.IMPACT.XOFF"
to_string xeur_eobi_xeur = "XEUR.EOBI.XEUR"
to_string xeee_eobi_xeee = "XEEE.EOBI.XEEE"
to_string xeur_eobi_xoff = "XEUR.EOBI.XOFF"
to_string xeee_eobi_xoff = "XEEE.EOBI.XOFF"
to_string xcbf_pitch_xcbf = "XCBF.PITCH.XCBF"
to_string xcbf_pitch_xoff = "XCBF.PITCH.XOFF"
to_string ocea_memoir_ocea = "OCEA.MEMOIR.OCEA"
to_string opra_pillar_mxto = "OPRA.PILLAR.MXTO"
to_string opra_pillar_iexo = "OPRA.PILLAR.IEXO"
to_string main_cgif_main = "MAIN.CGIF.MAIN"
to_string equs_sip_xase = "EQUS.SIP.XASE"
to_string equs_sip_xbos = "EQUS.SIP.XBOS"
to_string equs_sip_xcis = "EQUS.SIP.XCIS"
to_string equs_sip_txse = "EQUS.SIP.TXSE"
to_string equs_sip24_eq = "EQUS.SIP.24EQ"
to_string equs_sip_eprl = "EQUS.SIP.EPRL"
to_string equs_sip_xisx = "EQUS.SIP.XISX"
to_string equs_sip_edga = "EQUS.SIP.EDGA"
to_string equs_sip_edgx = "EQUS.SIP.EDGX"
to_string equs_sip_ltse = "EQUS.SIP.LTSE"
to_string equs_sip_xchi = "EQUS.SIP.XCHI"
to_string equs_sip_xnys = "EQUS.SIP.XNYS"
to_string equs_sip_arcx = "EQUS.SIP.ARCX"
to_string equs_sip_xnas = "EQUS.SIP.XNAS"
to_string equs_sip_memx = "EQUS.SIP.MEMX"
to_string equs_sip_iexg = "EQUS.SIP.IEXG"
to_string equs_sip_xpsx = "EQUS.SIP.XPSX"
to_string equs_sip_baty = "EQUS.SIP.BATY"
to_string equs_sip_bats = "EQUS.SIP.BATS"
to_string equs_sip_finn = "EQUS.SIP.FINN"
to_string equs_sip_finy = "EQUS.SIP.FINY"
to_string equs_sip_finc = "EQUS.SIP.FINC"
to_string equs_sip_xadf = "EQUS.SIP.XADF"
to_string equs_sip_cta = "EQUS.SIP.CTA"
to_string equs_sip_utp = "EQUS.SIP.UTP"
to_string msci_cgif_msci = "MSCI.CGIF.MSCI"
to_string ftse_cgif_ftse = "FTSE.CGIF.FTSE"
to_string inav_cgif_inav = "INAV.CGIF.INAV"
to_string mstar_cgif_mstar = "MSTAR.CGIF.MSTAR"
to_string cccy_cgif_cccy = "CCCY.CGIF.CCCY"
to_string cgi_cgif_cgi = "CGI.CGIF.CGI"
to_string main_cgif_def = "MAIN.CGIF.DEF"
to_string xtks_flex_xtks = "XTKS.FLEX.XTKS"
to_string xtkt_itch_xtkt = "XTKT.ITCH.XTKT"
to_string xose_itch_xose = "XOSE.ITCH.XOSE"
to_string (other value) = "Unknown"
