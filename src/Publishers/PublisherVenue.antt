-- ===== src/Publishers/PublisherVenue.antt =====
-- src/publishers.cpp: `PublisherVenue`.
use databento_cpp.Base.{Option, none, some}
use databento_cpp.Publishers.Venue.{Venue}
use databento_cpp.Publishers.Publisher.{Publisher}

-- `none` for the `InvalidArgumentError`.
unfoldable pub publisher_venue : Publisher → Option Venue
publisher_venue Publisher.glbx_mdp3_glbx = some Venue.glbx
publisher_venue Publisher.xnas_itch_xnas = some Venue.xnas
publisher_venue Publisher.xbos_itch_xbos = some Venue.xbos
publisher_venue Publisher.xpsx_itch_xpsx = some Venue.xpsx
publisher_venue Publisher.bats_pitch_bats = some Venue.bats
publisher_venue Publisher.baty_pitch_baty = some Venue.baty
publisher_venue Publisher.edga_pitch_edga = some Venue.edga
publisher_venue Publisher.edgx_pitch_edgx = some Venue.edgx
publisher_venue Publisher.xnys_pillar_xnys = some Venue.xnys
publisher_venue Publisher.xcis_pillar_xcis = some Venue.xcis
publisher_venue Publisher.xase_pillar_xase = some Venue.xase
publisher_venue Publisher.xchi_pillar_xchi = some Venue.xchi
publisher_venue Publisher.xcis_bbo_xcis = some Venue.xcis
publisher_venue Publisher.xcis_trades_xcis = some Venue.xcis
publisher_venue Publisher.memx_memoir_memx = some Venue.memx
publisher_venue Publisher.eprl_dom_eprl = some Venue.eprl
publisher_venue Publisher.xnas_nls_finn = some Venue.finn
publisher_venue Publisher.xnas_nls_finc = some Venue.finc
publisher_venue Publisher.xnys_trades_finy = some Venue.finy
publisher_venue Publisher.opra_pillar_amxo = some Venue.amxo
publisher_venue Publisher.opra_pillar_xbox = some Venue.xbox
publisher_venue Publisher.opra_pillar_xcbo = some Venue.xcbo
publisher_venue Publisher.opra_pillar_emld = some Venue.emld
publisher_venue Publisher.opra_pillar_edgo = some Venue.edgo
publisher_venue Publisher.opra_pillar_gmni = some Venue.gmni
publisher_venue Publisher.opra_pillar_xisx = some Venue.xisx
publisher_venue Publisher.opra_pillar_mcry = some Venue.mcry
publisher_venue Publisher.opra_pillar_xmio = some Venue.xmio
publisher_venue Publisher.opra_pillar_arco = some Venue.arco
publisher_venue Publisher.opra_pillar_opra = some Venue.opra
publisher_venue Publisher.opra_pillar_mprl = some Venue.mprl
publisher_venue Publisher.opra_pillar_xndq = some Venue.xndq
publisher_venue Publisher.opra_pillar_xbxo = some Venue.xbxo
publisher_venue Publisher.opra_pillar_c2_ox = some Venue.c2_ox
publisher_venue Publisher.opra_pillar_xphl = some Venue.xphl
publisher_venue Publisher.opra_pillar_bato = some Venue.bato
publisher_venue Publisher.opra_pillar_mxop = some Venue.mxop
publisher_venue Publisher.iexg_tops_iexg = some Venue.iexg
publisher_venue Publisher.dbeq_basic_xchi = some Venue.xchi
publisher_venue Publisher.dbeq_basic_xcis = some Venue.xcis
publisher_venue Publisher.dbeq_basic_iexg = some Venue.iexg
publisher_venue Publisher.dbeq_basic_eprl = some Venue.eprl
publisher_venue Publisher.arcx_pillar_arcx = some Venue.arcx
publisher_venue Publisher.xnys_bbo_xnys = some Venue.xnys
publisher_venue Publisher.xnys_trades_xnys = some Venue.xnys
publisher_venue Publisher.xnas_qbbo_xnas = some Venue.xnas
publisher_venue Publisher.xnas_nls_xnas = some Venue.xnas
publisher_venue Publisher.equs_plus_xchi = some Venue.xchi
publisher_venue Publisher.equs_plus_xcis = some Venue.xcis
publisher_venue Publisher.equs_plus_iexg = some Venue.iexg
publisher_venue Publisher.equs_plus_eprl = some Venue.eprl
publisher_venue Publisher.equs_plus_xnas = some Venue.xnas
publisher_venue Publisher.equs_plus_xnys = some Venue.xnys
publisher_venue Publisher.equs_plus_finn = some Venue.finn
publisher_venue Publisher.equs_plus_finy = some Venue.finy
publisher_venue Publisher.equs_plus_finc = some Venue.finc
publisher_venue Publisher.ifeu_impact_ifeu = some Venue.ifeu
publisher_venue Publisher.ndex_impact_ndex = some Venue.ndex
publisher_venue Publisher.dbeq_basic_dbeq = some Venue.dbeq
publisher_venue Publisher.equs_plus_equs = some Venue.equs
publisher_venue Publisher.opra_pillar_sphr = some Venue.sphr
publisher_venue Publisher.equs_all_xchi = some Venue.xchi
publisher_venue Publisher.equs_all_xcis = some Venue.xcis
publisher_venue Publisher.equs_all_iexg = some Venue.iexg
publisher_venue Publisher.equs_all_eprl = some Venue.eprl
publisher_venue Publisher.equs_all_xnas = some Venue.xnas
publisher_venue Publisher.equs_all_xnys = some Venue.xnys
publisher_venue Publisher.equs_all_finn = some Venue.finn
publisher_venue Publisher.equs_all_finy = some Venue.finy
publisher_venue Publisher.equs_all_finc = some Venue.finc
publisher_venue Publisher.equs_all_bats = some Venue.bats
publisher_venue Publisher.equs_all_baty = some Venue.baty
publisher_venue Publisher.equs_all_edga = some Venue.edga
publisher_venue Publisher.equs_all_edgx = some Venue.edgx
publisher_venue Publisher.equs_all_xbos = some Venue.xbos
publisher_venue Publisher.equs_all_xpsx = some Venue.xpsx
publisher_venue Publisher.equs_all_memx = some Venue.memx
publisher_venue Publisher.equs_all_xase = some Venue.xase
publisher_venue Publisher.equs_all_arcx = some Venue.arcx
publisher_venue Publisher.equs_all_ltse = some Venue.ltse
publisher_venue Publisher.xnas_basic_xnas = some Venue.xnas
publisher_venue Publisher.xnas_basic_finn = some Venue.finn
publisher_venue Publisher.xnas_basic_finc = some Venue.finc
publisher_venue Publisher.ifeu_impact_xoff = some Venue.xoff
publisher_venue Publisher.ndex_impact_xoff = some Venue.xoff
publisher_venue Publisher.xnas_nls_xbos = some Venue.xbos
publisher_venue Publisher.xnas_nls_xpsx = some Venue.xpsx
publisher_venue Publisher.xnas_basic_xbos = some Venue.xbos
publisher_venue Publisher.xnas_basic_xpsx = some Venue.xpsx
publisher_venue Publisher.equs_summary_equs = some Venue.equs
publisher_venue Publisher.xcis_tradesbbo_xcis = some Venue.xcis
publisher_venue Publisher.xnys_tradesbbo_xnys = some Venue.xnys
publisher_venue Publisher.xnas_basic_equs = some Venue.equs
publisher_venue Publisher.equs_all_equs = some Venue.equs
publisher_venue Publisher.equs_mini_equs = some Venue.equs
publisher_venue Publisher.xnys_trades_equs = some Venue.equs
publisher_venue Publisher.ifus_impact_ifus = some Venue.ifus
publisher_venue Publisher.ifus_impact_xoff = some Venue.xoff
publisher_venue Publisher.ifll_impact_ifll = some Venue.ifll
publisher_venue Publisher.ifll_impact_xoff = some Venue.xoff
publisher_venue Publisher.xeur_eobi_xeur = some Venue.xeur
publisher_venue Publisher.xeee_eobi_xeee = some Venue.xeee
publisher_venue Publisher.xeur_eobi_xoff = some Venue.xoff
publisher_venue Publisher.xeee_eobi_xoff = some Venue.xoff
publisher_venue Publisher.xcbf_pitch_xcbf = some Venue.xcbf
publisher_venue Publisher.xcbf_pitch_xoff = some Venue.xoff
publisher_venue Publisher.ocea_memoir_ocea = some Venue.ocea
publisher_venue Publisher.opra_pillar_mxto = some Venue.mxto
publisher_venue Publisher.opra_pillar_iexo = some Venue.iexo
publisher_venue Publisher.main_cgif_main = some Venue.main
publisher_venue Publisher.equs_sip_xase = some Venue.xase
publisher_venue Publisher.equs_sip_xbos = some Venue.xbos
publisher_venue Publisher.equs_sip_xcis = some Venue.xcis
publisher_venue Publisher.equs_sip_txse = some Venue.txse
publisher_venue Publisher.equs_sip24_eq = some Venue._24_eq
publisher_venue Publisher.equs_sip_eprl = some Venue.eprl
publisher_venue Publisher.equs_sip_xisx = some Venue.xisx
publisher_venue Publisher.equs_sip_edga = some Venue.edga
publisher_venue Publisher.equs_sip_edgx = some Venue.edgx
publisher_venue Publisher.equs_sip_ltse = some Venue.ltse
publisher_venue Publisher.equs_sip_xchi = some Venue.xchi
publisher_venue Publisher.equs_sip_xnys = some Venue.xnys
publisher_venue Publisher.equs_sip_arcx = some Venue.arcx
publisher_venue Publisher.equs_sip_xnas = some Venue.xnas
publisher_venue Publisher.equs_sip_memx = some Venue.memx
publisher_venue Publisher.equs_sip_iexg = some Venue.iexg
publisher_venue Publisher.equs_sip_xpsx = some Venue.xpsx
publisher_venue Publisher.equs_sip_baty = some Venue.baty
publisher_venue Publisher.equs_sip_bats = some Venue.bats
publisher_venue Publisher.equs_sip_finn = some Venue.finn
publisher_venue Publisher.equs_sip_finy = some Venue.finy
publisher_venue Publisher.equs_sip_finc = some Venue.finc
publisher_venue Publisher.equs_sip_xadf = some Venue.xadf
publisher_venue Publisher.equs_sip_cta = some Venue.cta
publisher_venue Publisher.equs_sip_utp = some Venue.utp
publisher_venue Publisher.msci_cgif_msci = some Venue.msci
publisher_venue Publisher.ftse_cgif_ftse = some Venue.ftse
publisher_venue Publisher.inav_cgif_inav = some Venue.inav
publisher_venue Publisher.mstar_cgif_mstar = some Venue.mstar
publisher_venue Publisher.cccy_cgif_cccy = some Venue.cccy
publisher_venue Publisher.cgi_cgif_cgi = some Venue.cgi
publisher_venue Publisher.main_cgif_def = some Venue.def
publisher_venue Publisher.xtks_flex_xtks = some Venue.xtks
publisher_venue Publisher.xtkt_itch_xtkt = some Venue.xtkt
publisher_venue Publisher.xose_itch_xose = some Venue.xose
publisher_venue (Publisher.other value) = none
