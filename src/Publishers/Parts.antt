-- ===== src/Publishers/Parts.antt =====
-- The names of publishers against those of their datasets and venues.
use databento_cpp.Base.{◌≡◌, refl, true}
use Prim.Native.String.{◌++◌}
use databento_cpp.Base.{some}
use databento_cpp.Publishers.Venue
use databento_cpp.Publishers.Dataset
use databento_cpp.Publishers.Venue.{Venue}
use databento_cpp.Publishers.Dataset.{Dataset}
use databento_cpp.Publishers.Publisher.{Publisher, is_enumerator, to_string}
use databento_cpp.Publishers.PublisherVenue.{publisher_venue}
use databento_cpp.Publishers.PublisherDataset.{publisher_dataset}

-- For every enumerator: `PublisherDataset` and `PublisherVenue` do not throw, and the text of the
-- publisher is the text of its dataset, a full stop and the text of its venue.
pub to_string-Parts :
    (p : Publisher)
    → is_enumerator p ≡ true
    → (d : Dataset) × (v : Venue) × (publisher_dataset p ≡ some d)
      × (publisher_venue p ≡ some v)
      × (to_string p ≡ Dataset.to_string d ++ ("." ++ Venue.to_string v))
unfolding to_string publisher_venue publisher_dataset Venue.to_string Dataset.to_string
to_string-Parts Publisher.glbx_mdp3_glbx h = (_, _, refl, refl, refl)
to_string-Parts Publisher.xnas_itch_xnas h = (_, _, refl, refl, refl)
to_string-Parts Publisher.xbos_itch_xbos h = (_, _, refl, refl, refl)
to_string-Parts Publisher.xpsx_itch_xpsx h = (_, _, refl, refl, refl)
to_string-Parts Publisher.bats_pitch_bats h = (_, _, refl, refl, refl)
to_string-Parts Publisher.baty_pitch_baty h = (_, _, refl, refl, refl)
to_string-Parts Publisher.edga_pitch_edga h = (_, _, refl, refl, refl)
to_string-Parts Publisher.edgx_pitch_edgx h = (_, _, refl, refl, refl)
to_string-Parts Publisher.xnys_pillar_xnys h = (_, _, refl, refl, refl)
to_string-Parts Publisher.xcis_pillar_xcis h = (_, _, refl, refl, refl)
to_string-Parts Publisher.xase_pillar_xase h = (_, _, refl, refl, refl)
to_string-Parts Publisher.xchi_pillar_xchi h = (_, _, refl, refl, refl)
to_string-Parts Publisher.xcis_bbo_xcis h = (_, _, refl, refl, refl)
to_string-Parts Publisher.xcis_trades_xcis h = (_, _, refl, refl, refl)
to_string-Parts Publisher.memx_memoir_memx h = (_, _, refl, refl, refl)
to_string-Parts Publisher.eprl_dom_eprl h = (_, _, refl, refl, refl)
to_string-Parts Publisher.xnas_nls_finn h = (_, _, refl, refl, refl)
to_string-Parts Publisher.xnas_nls_finc h = (_, _, refl, refl, refl)
to_string-Parts Publisher.xnys_trades_finy h = (_, _, refl, refl, refl)
to_string-Parts Publisher.opra_pillar_amxo h = (_, _, refl, refl, refl)
to_string-Parts Publisher.opra_pillar_xbox h = (_, _, refl, refl, refl)
to_string-Parts Publisher.opra_pillar_xcbo h = (_, _, refl, refl, refl)
to_string-Parts Publisher.opra_pillar_emld h = (_, _, refl, refl, refl)
to_string-Parts Publisher.opra_pillar_edgo h = (_, _, refl, refl, refl)
to_string-Parts Publisher.opra_pillar_gmni h = (_, _, refl, refl, refl)
to_string-Parts Publisher.opra_pillar_xisx h = (_, _, refl, refl, refl)
to_string-Parts Publisher.opra_pillar_mcry h = (_, _, refl, refl, refl)
to_string-Parts Publisher.opra_pillar_xmio h = (_, _, refl, refl, refl)
to_string-Parts Publisher.opra_pillar_arco h = (_, _, refl, refl, refl)
to_string-Parts Publisher.opra_pillar_opra h = (_, _, refl, refl, refl)
to_string-Parts Publisher.opra_pillar_mprl h = (_, _, refl, refl, refl)
to_string-Parts Publisher.opra_pillar_xndq h = (_, _, refl, refl, refl)
to_string-Parts Publisher.opra_pillar_xbxo h = (_, _, refl, refl, refl)
to_string-Parts Publisher.opra_pillar_c2_ox h = (_, _, refl, refl, refl)
to_string-Parts Publisher.opra_pillar_xphl h = (_, _, refl, refl, refl)
to_string-Parts Publisher.opra_pillar_bato h = (_, _, refl, refl, refl)
to_string-Parts Publisher.opra_pillar_mxop h = (_, _, refl, refl, refl)
to_string-Parts Publisher.iexg_tops_iexg h = (_, _, refl, refl, refl)
to_string-Parts Publisher.dbeq_basic_xchi h = (_, _, refl, refl, refl)
to_string-Parts Publisher.dbeq_basic_xcis h = (_, _, refl, refl, refl)
to_string-Parts Publisher.dbeq_basic_iexg h = (_, _, refl, refl, refl)
to_string-Parts Publisher.dbeq_basic_eprl h = (_, _, refl, refl, refl)
to_string-Parts Publisher.arcx_pillar_arcx h = (_, _, refl, refl, refl)
to_string-Parts Publisher.xnys_bbo_xnys h = (_, _, refl, refl, refl)
to_string-Parts Publisher.xnys_trades_xnys h = (_, _, refl, refl, refl)
to_string-Parts Publisher.xnas_qbbo_xnas h = (_, _, refl, refl, refl)
to_string-Parts Publisher.xnas_nls_xnas h = (_, _, refl, refl, refl)
to_string-Parts Publisher.equs_plus_xchi h = (_, _, refl, refl, refl)
to_string-Parts Publisher.equs_plus_xcis h = (_, _, refl, refl, refl)
to_string-Parts Publisher.equs_plus_iexg h = (_, _, refl, refl, refl)
to_string-Parts Publisher.equs_plus_eprl h = (_, _, refl, refl, refl)
to_string-Parts Publisher.equs_plus_xnas h = (_, _, refl, refl, refl)
to_string-Parts Publisher.equs_plus_xnys h = (_, _, refl, refl, refl)
to_string-Parts Publisher.equs_plus_finn h = (_, _, refl, refl, refl)
to_string-Parts Publisher.equs_plus_finy h = (_, _, refl, refl, refl)
to_string-Parts Publisher.equs_plus_finc h = (_, _, refl, refl, refl)
to_string-Parts Publisher.ifeu_impact_ifeu h = (_, _, refl, refl, refl)
to_string-Parts Publisher.ndex_impact_ndex h = (_, _, refl, refl, refl)
to_string-Parts Publisher.dbeq_basic_dbeq h = (_, _, refl, refl, refl)
to_string-Parts Publisher.equs_plus_equs h = (_, _, refl, refl, refl)
to_string-Parts Publisher.opra_pillar_sphr h = (_, _, refl, refl, refl)
to_string-Parts Publisher.equs_all_xchi h = (_, _, refl, refl, refl)
to_string-Parts Publisher.equs_all_xcis h = (_, _, refl, refl, refl)
to_string-Parts Publisher.equs_all_iexg h = (_, _, refl, refl, refl)
to_string-Parts Publisher.equs_all_eprl h = (_, _, refl, refl, refl)
to_string-Parts Publisher.equs_all_xnas h = (_, _, refl, refl, refl)
to_string-Parts Publisher.equs_all_xnys h = (_, _, refl, refl, refl)
to_string-Parts Publisher.equs_all_finn h = (_, _, refl, refl, refl)
to_string-Parts Publisher.equs_all_finy h = (_, _, refl, refl, refl)
to_string-Parts Publisher.equs_all_finc h = (_, _, refl, refl, refl)
to_string-Parts Publisher.equs_all_bats h = (_, _, refl, refl, refl)
to_string-Parts Publisher.equs_all_baty h = (_, _, refl, refl, refl)
to_string-Parts Publisher.equs_all_edga h = (_, _, refl, refl, refl)
to_string-Parts Publisher.equs_all_edgx h = (_, _, refl, refl, refl)
to_string-Parts Publisher.equs_all_xbos h = (_, _, refl, refl, refl)
to_string-Parts Publisher.equs_all_xpsx h = (_, _, refl, refl, refl)
to_string-Parts Publisher.equs_all_memx h = (_, _, refl, refl, refl)
to_string-Parts Publisher.equs_all_xase h = (_, _, refl, refl, refl)
to_string-Parts Publisher.equs_all_arcx h = (_, _, refl, refl, refl)
to_string-Parts Publisher.equs_all_ltse h = (_, _, refl, refl, refl)
to_string-Parts Publisher.xnas_basic_xnas h = (_, _, refl, refl, refl)
to_string-Parts Publisher.xnas_basic_finn h = (_, _, refl, refl, refl)
to_string-Parts Publisher.xnas_basic_finc h = (_, _, refl, refl, refl)
to_string-Parts Publisher.ifeu_impact_xoff h = (_, _, refl, refl, refl)
to_string-Parts Publisher.ndex_impact_xoff h = (_, _, refl, refl, refl)
to_string-Parts Publisher.xnas_nls_xbos h = (_, _, refl, refl, refl)
to_string-Parts Publisher.xnas_nls_xpsx h = (_, _, refl, refl, refl)
to_string-Parts Publisher.xnas_basic_xbos h = (_, _, refl, refl, refl)
to_string-Parts Publisher.xnas_basic_xpsx h = (_, _, refl, refl, refl)
to_string-Parts Publisher.equs_summary_equs h = (_, _, refl, refl, refl)
to_string-Parts Publisher.xcis_tradesbbo_xcis h = (_, _, refl, refl, refl)
to_string-Parts Publisher.xnys_tradesbbo_xnys h = (_, _, refl, refl, refl)
to_string-Parts Publisher.xnas_basic_equs h = (_, _, refl, refl, refl)
to_string-Parts Publisher.equs_all_equs h = (_, _, refl, refl, refl)
to_string-Parts Publisher.equs_mini_equs h = (_, _, refl, refl, refl)
to_string-Parts Publisher.xnys_trades_equs h = (_, _, refl, refl, refl)
to_string-Parts Publisher.ifus_impact_ifus h = (_, _, refl, refl, refl)
to_string-Parts Publisher.ifus_impact_xoff h = (_, _, refl, refl, refl)
to_string-Parts Publisher.ifll_impact_ifll h = (_, _, refl, refl, refl)
to_string-Parts Publisher.ifll_impact_xoff h = (_, _, refl, refl, refl)
to_string-Parts Publisher.xeur_eobi_xeur h = (_, _, refl, refl, refl)
to_string-Parts Publisher.xeee_eobi_xeee h = (_, _, refl, refl, refl)
to_string-Parts Publisher.xeur_eobi_xoff h = (_, _, refl, refl, refl)
to_string-Parts Publisher.xeee_eobi_xoff h = (_, _, refl, refl, refl)
to_string-Parts Publisher.xcbf_pitch_xcbf h = (_, _, refl, refl, refl)
to_string-Parts Publisher.xcbf_pitch_xoff h = (_, _, refl, refl, refl)
to_string-Parts Publisher.ocea_memoir_ocea h = (_, _, refl, refl, refl)
to_string-Parts Publisher.opra_pillar_mxto h = (_, _, refl, refl, refl)
to_string-Parts Publisher.opra_pillar_iexo h = (_, _, refl, refl, refl)
to_string-Parts Publisher.main_cgif_main h = (_, _, refl, refl, refl)
to_string-Parts Publisher.equs_sip_xase h = (_, _, refl, refl, refl)
to_string-Parts Publisher.equs_sip_xbos h = (_, _, refl, refl, refl)
to_string-Parts Publisher.equs_sip_xcis h = (_, _, refl, refl, refl)
to_string-Parts Publisher.equs_sip_txse h = (_, _, refl, refl, refl)
to_string-Parts Publisher.equs_sip24_eq h = (_, _, refl, refl, refl)
to_string-Parts Publisher.equs_sip_eprl h = (_, _, refl, refl, refl)
to_string-Parts Publisher.equs_sip_xisx h = (_, _, refl, refl, refl)
to_string-Parts Publisher.equs_sip_edga h = (_, _, refl, refl, refl)
to_string-Parts Publisher.equs_sip_edgx h = (_, _, refl, refl, refl)
to_string-Parts Publisher.equs_sip_ltse h = (_, _, refl, refl, refl)
to_string-Parts Publisher.equs_sip_xchi h = (_, _, refl, refl, refl)
to_string-Parts Publisher.equs_sip_xnys h = (_, _, refl, refl, refl)
to_string-Parts Publisher.equs_sip_arcx h = (_, _, refl, refl, refl)
to_string-Parts Publisher.equs_sip_xnas h = (_, _, refl, refl, refl)
to_string-Parts Publisher.equs_sip_memx h = (_, _, refl, refl, refl)
to_string-Parts Publisher.equs_sip_iexg h = (_, _, refl, refl, refl)
to_string-Parts Publisher.equs_sip_xpsx h = (_, _, refl, refl, refl)
to_string-Parts Publisher.equs_sip_baty h = (_, _, refl, refl, refl)
to_string-Parts Publisher.equs_sip_bats h = (_, _, refl, refl, refl)
to_string-Parts Publisher.equs_sip_finn h = (_, _, refl, refl, refl)
to_string-Parts Publisher.equs_sip_finy h = (_, _, refl, refl, refl)
to_string-Parts Publisher.equs_sip_finc h = (_, _, refl, refl, refl)
to_string-Parts Publisher.equs_sip_xadf h = (_, _, refl, refl, refl)
to_string-Parts Publisher.equs_sip_cta h = (_, _, refl, refl, refl)
to_string-Parts Publisher.equs_sip_utp h = (_, _, refl, refl, refl)
to_string-Parts Publisher.msci_cgif_msci h = (_, _, refl, refl, refl)
to_string-Parts Publisher.ftse_cgif_ftse h = (_, _, refl, refl, refl)
to_string-Parts Publisher.inav_cgif_inav h = (_, _, refl, refl, refl)
to_string-Parts Publisher.mstar_cgif_mstar h = (_, _, refl, refl, refl)
to_string-Parts Publisher.cccy_cgif_cccy h = (_, _, refl, refl, refl)
to_string-Parts Publisher.cgi_cgif_cgi h = (_, _, refl, refl, refl)
to_string-Parts Publisher.main_cgif_def h = (_, _, refl, refl, refl)
to_string-Parts Publisher.xtks_flex_xtks h = (_, _, refl, refl, refl)
to_string-Parts Publisher.xtkt_itch_xtkt h = (_, _, refl, refl, refl)
to_string-Parts Publisher.xose_itch_xose h = (_, _, refl, refl, refl)
to_string-Parts (Publisher.other value) h = absurd (cc)
