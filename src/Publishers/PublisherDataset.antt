-- ===== src/Publishers/PublisherDataset.antt =====
-- src/publishers.cpp: `PublisherDataset`.
use databento_cpp.Base.{Option, none, some}
use databento_cpp.Publishers.Dataset.{Dataset}
use databento_cpp.Publishers.Publisher.{Publisher}

-- `none` for the `InvalidArgumentError`.
unfoldable pub publisher_dataset : Publisher → Option Dataset
publisher_dataset Publisher.glbx_mdp3_glbx = some Dataset.glbx_mdp3
publisher_dataset Publisher.xnas_itch_xnas = some Dataset.xnas_itch
publisher_dataset Publisher.xbos_itch_xbos = some Dataset.xbos_itch
publisher_dataset Publisher.xpsx_itch_xpsx = some Dataset.xpsx_itch
publisher_dataset Publisher.bats_pitch_bats = some Dataset.bats_pitch
publisher_dataset Publisher.baty_pitch_baty = some Dataset.baty_pitch
publisher_dataset Publisher.edga_pitch_edga = some Dataset.edga_pitch
publisher_dataset Publisher.edgx_pitch_edgx = some Dataset.edgx_pitch
publisher_dataset Publisher.xnys_pillar_xnys = some Dataset.xnys_pillar
publisher_dataset Publisher.xcis_pillar_xcis = some Dataset.xcis_pillar
publisher_dataset Publisher.xase_pillar_xase = some Dataset.xase_pillar
publisher_dataset Publisher.xchi_pillar_xchi = some Dataset.xchi_pillar
publisher_dataset Publisher.xcis_bbo_xcis = some Dataset.xcis_bbo
publisher_dataset Publisher.xcis_trades_xcis = some Dataset.xcis_trades
publisher_dataset Publisher.memx_memoir_memx = some Dataset.memx_memoir
publisher_dataset Publisher.eprl_dom_eprl = some Dataset.eprl_dom
publisher_dataset Publisher.xnas_nls_finn = some Dataset.xnas_nls
publisher_dataset Publisher.xnas_nls_finc = some Dataset.xnas_nls
publisher_dataset Publisher.xnys_trades_finy = some Dataset.xnys_trades
publisher_dataset Publisher.opra_pillar_amxo = some Dataset.opra_pillar
publisher_dataset Publisher.opra_pillar_xbox = some Dataset.opra_pillar
publisher_dataset Publisher.opra_pillar_xcbo = some Dataset.opra_pillar
publisher_dataset Publisher.opra_pillar_emld = some Dataset.opra_pillar
publisher_dataset Publisher.opra_pillar_edgo = some Dataset.opra_pillar
publisher_dataset Publisher.opra_pillar_gmni = some Dataset.opra_pillar
publisher_dataset Publisher.opra_pillar_xisx = some Dataset.opra_pillar
publisher_dataset Publisher.opra_pillar_mcry = some Dataset.opra_pillar
publisher_dataset Publisher.opra_pillar_xmio = some Dataset.opra_pillar
publisher_dataset Publisher.opra_pillar_arco = some Dataset.opra_pillar
publisher_dataset Publisher.opra_pillar_opra = some Dataset.opra_pillar
publisher_dataset Publisher.opra_pillar_mprl = some Dataset.opra_pillar
publisher_dataset Publisher.opra_pillar_xndq = some Dataset.opra_pillar
publisher_dataset Publisher.opra_pillar_xbxo = some Dataset.opra_pillar
publisher_dataset Publisher.opra_pillar_c2_ox = some Dataset.opra_pillar
publisher_dataset Publisher.opra_pillar_xphl = some Dataset.opra_pillar
publisher_dataset Publisher.opra_pillar_bato = some Dataset.opra_pillar
publisher_dataset Publisher.opra_pillar_mxop = some Dataset.opra_pillar
publisher_dataset Publisher.iexg_tops_iexg = some Dataset.iexg_tops
publisher_dataset Publisher.dbeq_basic_xchi = some Dataset.dbeq_basic
publisher_dataset Publisher.dbeq_basic_xcis = some Dataset.dbeq_basic
publisher_dataset Publisher.dbeq_basic_iexg = some Dataset.dbeq_basic
publisher_dataset Publisher.dbeq_basic_eprl = some Dataset.dbeq_basic
publisher_dataset Publisher.arcx_pillar_arcx = some Dataset.arcx_pillar
publisher_dataset Publisher.xnys_bbo_xnys = some Dataset.xnys_bbo
publisher_dataset Publisher.xnys_trades_xnys = some Dataset.xnys_trades
publisher_dataset Publisher.xnas_qbbo_xnas = some Dataset.xnas_qbbo
publisher_dataset Publisher.xnas_nls_xnas = some Dataset.xnas_nls
publisher_dataset Publisher.equs_plus_xchi = some Dataset.equs_plus
publisher_dataset Publisher.equs_plus_xcis = some Dataset.equs_plus
publisher_dataset Publisher.equs_plus_iexg = some Dataset.equs_plus
publisher_dataset Publisher.equs_plus_eprl = some Dataset.equs_plus
publisher_dataset Publisher.equs_plus_xnas = some Dataset.equs_plus
publisher_dataset Publisher.equs_plus_xnys = some Dataset.equs_plus
publisher_dataset Publisher.equs_plus_finn = some Dataset.equs_plus
publisher_dataset Publisher.equs_plus_finy = some Dataset.equs_plus
publisher_dataset Publisher.equs_plus_finc = some Dataset.equs_plus
publisher_dataset Publisher.ifeu_impact_ifeu = some Dataset.ifeu_impact
publisher_dataset Publisher.ndex_impact_ndex = some Dataset.ndex_impact
publisher_dataset Publisher.dbeq_basic_dbeq = some Dataset.dbeq_basic
publisher_dataset Publisher.equs_plus_equs = some Dataset.equs_plus
publisher_dataset Publisher.opra_pillar_sphr = some Dataset.opra_pillar
publisher_dataset Publisher.equs_all_xchi = some Dataset.equs_all
publisher_dataset Publisher.equs_all_xcis = some Dataset.equs_all
publisher_dataset Publisher.equs_all_iexg = some Dataset.equs_all
publisher_dataset Publisher.equs_all_eprl = some Dataset.equs_all
publisher_dataset Publisher.equs_all_xnas = some Dataset.equs_all
publisher_dataset Publisher.equs_all_xnys = some Dataset.equs_all
publisher_dataset Publisher.equs_all_finn = some Dataset.equs_all
publisher_dataset Publisher.equs_all_finy = some Dataset.equs_all
publisher_dataset Publisher.equs_all_finc = some Dataset.equs_all
publisher_dataset Publisher.equs_all_bats = some Dataset.equs_all
publisher_dataset Publisher.equs_all_baty = some Dataset.equs_all
publisher_dataset Publisher.equs_all_edga = some Dataset.equs_all
publisher_dataset Publisher.equs_all_edgx = some Dataset.equs_all
publisher_dataset Publisher.equs_all_xbos = some Dataset.equs_all
publisher_dataset Publisher.equs_all_xpsx = some Dataset.equs_all
publisher_dataset Publisher.equs_all_memx = some Dataset.equs_all
publisher_dataset Publisher.equs_all_xase = some Dataset.equs_all
publisher_dataset Publisher.equs_all_arcx = some Dataset.equs_all
publisher_dataset Publisher.equs_all_ltse = some Dataset.equs_all
publisher_dataset Publisher.xnas_basic_xnas = some Dataset.xnas_basic
publisher_dataset Publisher.xnas_basic_finn = some Dataset.xnas_basic
publisher_dataset Publisher.xnas_basic_finc = some Dataset.xnas_basic
publisher_dataset Publisher.ifeu_impact_xoff = some Dataset.ifeu_impact
publisher_dataset Publisher.ndex_impact_xoff = some Dataset.ndex_impact
publisher_dataset Publisher.xnas_nls_xbos = some Dataset.xnas_nls
publisher_dataset Publisher.xnas_nls_xpsx = some Dataset.xnas_nls
publisher_dataset Publisher.xnas_basic_xbos = some Dataset.xnas_basic
publisher_dataset Publisher.xnas_basic_xpsx = some Dataset.xnas_basic
publisher_dataset Publisher.equs_summary_equs = some Dataset.equs_summary
publisher_dataset Publisher.xcis_tradesbbo_xcis = some Dataset.xcis_tradesbbo
publisher_dataset Publisher.xnys_tradesbbo_xnys = some Dataset.xnys_tradesbbo
publisher_dataset Publisher.xnas_basic_equs = some Dataset.xnas_basic
publisher_dataset Publisher.equs_all_equs = some Dataset.equs_all
publisher_dataset Publisher.equs_mini_equs = some Dataset.equs_mini
publisher_dataset Publisher.xnys_trades_equs = some Dataset.xnys_trades
publisher_dataset Publisher.ifus_impact_ifus = some Dataset.ifus_impact
publisher_dataset Publisher.ifus_impact_xoff = some Dataset.ifus_impact
publisher_dataset Publisher.ifll_impact_ifll = some Dataset.ifll_impact
publisher_dataset Publisher.ifll_impact_xoff = some Dataset.ifll_impact
publisher_dataset Publisher.xeur_eobi_xeur = some Dataset.xeur_eobi
publisher_dataset Publisher.xeee_eobi_xeee = some Dataset.xeee_eobi
publisher_dataset Publisher.xeur_eobi_xoff = some Dataset.xeur_eobi
publisher_dataset Publisher.xeee_eobi_xoff = some Dataset.xeee_eobi
publisher_dataset Publisher.xcbf_pitch_xcbf = some Dataset.xcbf_pitch
publisher_dataset Publisher.xcbf_pitch_xoff = some Dataset.xcbf_pitch
publisher_dataset Publisher.ocea_memoir_ocea = some Dataset.ocea_memoir
publisher_dataset Publisher.opra_pillar_mxto = some Dataset.opra_pillar
publisher_dataset Publisher.opra_pillar_iexo = some Dataset.opra_pillar
publisher_dataset Publisher.main_cgif_main = some Dataset.main_cgif
publisher_dataset Publisher.equs_sip_xase = some Dataset.equs_sip
publisher_dataset Publisher.equs_sip_xbos = some Dataset.equs_sip
publisher_dataset Publisher.equs_sip_xcis = some Dataset.equs_sip
publisher_dataset Publisher.equs_sip_txse = some Dataset.equs_sip
publisher_dataset Publisher.equs_sip24_eq = some Dataset.equs_sip
publisher_dataset Publisher.equs_sip_eprl = some Dataset.equs_sip
publisher_dataset Publisher.equs_sip_xisx = some Dataset.equs_sip
publisher_dataset Publisher.equs_sip_edga = some Dataset.equs_sip
publisher_dataset Publisher.equs_sip_edgx = some Dataset.equs_sip
publisher_dataset Publisher.equs_sip_ltse = some Dataset.equs_sip
publisher_dataset Publisher.equs_sip_xchi = some Dataset.equs_sip
publisher_dataset Publisher.equs_sip_xnys = some Dataset.equs_sip
publisher_dataset Publisher.equs_sip_arcx = some Dataset.equs_sip
publisher_dataset Publisher.equs_sip_xnas = some Dataset.equs_sip
publisher_dataset Publisher.equs_sip_memx = some Dataset.equs_sip
publisher_dataset Publisher.equs_sip_iexg = some Dataset.equs_sip
publisher_dataset Publisher.equs_sip_xpsx = some Dataset.equs_sip
publisher_dataset Publisher.equs_sip_baty = some Dataset.equs_sip
publisher_dataset Publisher.equs_sip_bats = some Dataset.equs_sip
publisher_dataset Publisher.equs_sip_finn = some Dataset.equs_sip
publisher_dataset Publisher.equs_sip_finy = some Dataset.equs_sip
publisher_dataset Publisher.equs_sip_finc = some Dataset.equs_sip
publisher_dataset Publisher.equs_sip_xadf = some Dataset.equs_sip
publisher_dataset Publisher.equs_sip_cta = some Dataset.equs_sip
publisher_dataset Publisher.equs_sip_utp = some Dataset.equs_sip
publisher_dataset Publisher.msci_cgif_msci = some Dataset.msci_cgif
publisher_dataset Publisher.ftse_cgif_ftse = some Dataset.ftse_cgif
publisher_dataset Publisher.inav_cgif_inav = some Dataset.inav_cgif
publisher_dataset Publisher.mstar_cgif_mstar = some Dataset.mstar_cgif
publisher_dataset Publisher.cccy_cgif_cccy = some Dataset.cccy_cgif
publisher_dataset Publisher.cgi_cgif_cgi = some Dataset.cgi_cgif
publisher_dataset Publisher.main_cgif_def = some Dataset.main_cgif
publisher_dataset Publisher.xtks_flex_xtks = some Dataset.xtks_flex
publisher_dataset Publisher.xtkt_itch_xtkt = some Dataset.xtkt_itch
publisher_dataset Publisher.xose_itch_xose = some Dataset.xose_itch
publisher_dataset (Publisher.other value) = none
