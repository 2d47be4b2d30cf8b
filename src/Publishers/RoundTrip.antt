-- ===== src/Publishers/RoundTrip.antt =====
-- src/publishers.cpp: `FromString<Publisher>` against `ToString`.
use databento_cpp.Base.{◌≡◌, refl, true, some, ◌↔◌}
use Prim.Native.String.{String}
use databento_cpp.Enums.{agrees, first_match-agrees}
use databento_cpp.Publishers.Publisher.{Publisher, is_enumerator, to_string}
use databento_cpp.Publishers.FromString.{names, from_string}

pub publisher_from_string-to_string :
    (v : Publisher) → is_enumerator v ≡ true → from_string (to_string v) ≡ some v
unfolding from_string to_string
publisher_from_string-to_string Publisher.glbx_mdp3_glbx h = refl
publisher_from_string-to_string Publisher.xnas_itch_xnas h = refl
publisher_from_string-to_string Publisher.xbos_itch_xbos h = refl
publisher_from_string-to_string Publisher.xpsx_itch_xpsx h = refl
publisher_from_string-to_string Publisher.bats_pitch_bats h = refl
publisher_from_string-to_string Publisher.baty_pitch_baty h = refl
publisher_from_string-to_string Publisher.edga_pitch_edga h = refl
publisher_from_string-to_string Publisher.edgx_pitch_edgx h = refl
publisher_from_string-to_string Publisher.xnys_pillar_xnys h = refl
publisher_from_string-to_string Publisher.xcis_pillar_xcis h = refl
publisher_from_string-to_string Publisher.xase_pillar_xase h = refl
publisher_from_string-to_string Publisher.xchi_pillar_xchi h = refl
publisher_from_string-to_string Publisher.xcis_bbo_xcis h = refl
publisher_from_string-to_string Publisher.xcis_trades_xcis h = refl
publisher_from_string-to_string Publisher.memx_memoir_memx h = refl
publisher_from_string-to_string Publisher.eprl_dom_eprl h = refl
publisher_from_string-to_string Publisher.xnas_nls_finn h = refl
publisher_from_string-to_string Publisher.xnas_nls_finc h = refl
publisher_from_string-to_string Publisher.xnys_trades_finy h = refl
publisher_from_string-to_string Publisher.opra_pillar_amxo h = refl
publisher_from_string-to_string Publisher.opra_pillar_xbox h = refl
publisher_from_string-to_string Publisher.opra_pillar_xcbo h = refl
publisher_from_string-to_string Publisher.opra_pillar_emld h = refl
publisher_from_string-to_string Publisher.opra_pillar_edgo h = refl
publisher_from_string-to_string Publisher.opra_pillar_gmni h = refl
publisher_from_string-to_string Publisher.opra_pillar_xisx h = refl
publisher_from_string-to_string Publisher.opra_pillar_mcry h = refl
publisher_from_string-to_string Publisher.opra_pillar_xmio h = refl
publisher_from_string-to_string Publisher.opra_pillar_arco h = refl
publisher_from_string-to_string Publisher.opra_pillar_opra h = refl
publisher_from_string-to_string Publisher.opra_pillar_mprl h = refl
publisher_from_string-to_string Publisher.opra_pillar_xndq h = refl
publisher_from_string-to_string Publisher.opra_pillar_xbxo h = refl
publisher_from_string-to_string Publisher.opra_pillar_c2_ox h = refl
publisher_from_string-to_string Publisher.opra_pillar_xphl h = refl
publisher_from_string-to_string Publisher.opra_pillar_bato h = refl
publisher_from_string-to_string Publisher.opra_pillar_mxop h = refl
publisher_from_string-to_string Publisher.iexg_tops_iexg h = refl
publisher_from_string-to_string Publisher.dbeq_basic_xchi h = refl
publisher_from_string-to_string Publisher.dbeq_basic_xcis h = refl
publisher_from_string-to_string Publisher.dbeq_basic_iexg h = refl
publisher_from_string-to_string Publisher.dbeq_basic_eprl h = refl
publisher_from_string-to_string Publisher.arcx_pillar_arcx h = refl
publisher_from_string-to_string Publisher.xnys_bbo_xnys h = refl
publisher_from_string-to_string Publisher.xnys_trades_xnys h = refl
publisher_from_string-to_string Publisher.xnas_qbbo_xnas h = refl
publisher_from_string-to_string Publisher.xnas_nls_xnas h = refl
publisher_from_string-to_string Publisher.equs_plus_xchi h = refl
publisher_from_string-to_string Publisher.equs_plus_xcis h = refl
publisher_from_string-to_string Publisher.equs_plus_iexg h = refl
publisher_from_string-to_string Publisher.equs_plus_eprl h = refl
publisher_from_string-to_string Publisher.equs_plus_xnas h = refl
publisher_from_string-to_string Publisher.equs_plus_xnys h = refl
publisher_from_string-to_string Publisher.equs_plus_finn h = refl
publisher_from_string-to_string Publisher.equs_plus_finy h = refl
publisher_from_string-to_string Publisher.equs_plus_finc h = refl
publisher_from_string-to_string Publisher.ifeu_impact_ifeu h = refl
publisher_from_string-to_string Publisher.ndex_impact_ndex h = refl
publisher_from_string-to_string Publisher.dbeq_basic_dbeq h = refl
publisher_from_string-to_string Publisher.equs_plus_equs h = refl
publisher_from_string-to_string Publisher.opra_pillar_sphr h = refl
publisher_from_string-to_string Publisher.equs_all_xchi h = refl
publisher_from_string-to_string Publisher.equs_all_xcis h = refl
publisher_from_string-to_string Publisher.equs_all_iexg h = refl
publisher_from_string-to_string Publisher.equs_all_eprl h = refl
publisher_from_string-to_string Publisher.equs_all_xnas h = refl
publisher_from_string-to_string Publisher.equs_all_xnys h = refl
publisher_from_string-to_string Publisher.equs_all_finn h = refl
publisher_from_string-to_string Publisher.equs_all_finy h = refl
publisher_from_string-to_string Publisher.equs_all_finc h = refl
publisher_from_string-to_string Publisher.equs_all_bats h = refl
publisher_from_string-to_string Publisher.equs_all_baty h = refl
publisher_from_string-to_string Publisher.equs_all_edga h = refl
publisher_from_string-to_string Publisher.equs_all_edgx h = refl
publisher_from_string-to_string Publisher.equs_all_xbos h = refl
publisher_from_string-to_string Publisher.equs_all_xpsx h = refl
publisher_from_string-to_string Publisher.equs_all_memx h = refl
publisher_from_string-to_string Publisher.equs_all_xase h = refl
publisher_from_string-to_string Publisher.equs_all_arcx h = refl
publisher_from_string-to_string Publisher.equs_all_ltse h = refl
publisher_from_string-to_string Publisher.xnas_basic_xnas h = refl
publisher_from_string-to_string Publisher.xnas_basic_finn h = refl
publisher_from_string-to_string Publisher.xnas_basic_finc h = refl
publisher_from_string-to_string Publisher.ifeu_impact_xoff h = refl
publisher_from_string-to_string Publisher.ndex_impact_xoff h = refl
publisher_from_string-to_string Publisher.xnas_nls_xbos h = refl
publisher_from_string-to_string Publisher.xnas_nls_xpsx h = refl
publisher_from_string-to_string Publisher.xnas_basic_xbos h = refl
publisher_from_string-to_string Publisher.xnas_basic_xpsx h = refl
publisher_from_string-to_string Publisher.equs_summary_equs h = refl
publisher_from_string-to_string Publisher.xcis_tradesbbo_xcis h = refl
publisher_from_string-to_string Publisher.xnys_tradesbbo_xnys h = refl
publisher_from_string-to_string Publisher.xnas_basic_equs h = refl
publisher_from_string-to_string Publisher.equs_all_equs h = refl
publisher_from_string-to_string Publisher.equs_mini_equs h = refl
publisher_from_string-to_string Publisher.xnys_trades_equs h = refl
publisher_from_string-to_string Publisher.ifus_impact_ifus h = refl
publisher_from_string-to_string Publisher.ifus_impact_xoff h = refl
publisher_from_string-to_string Publisher.ifll_impact_ifll h = refl
publisher_from_string-to_string Publisher.ifll_impact_xoff h = refl
publisher_from_string-to_string Publisher.xeur_eobi_xeur h = refl
publisher_from_string-to_string Publisher.xeee_eobi_xeee h = refl
publisher_from_string-to_string Publisher.xeur_eobi_xoff h = refl
publisher_from_string-to_string Publisher.xeee_eobi_xoff h = refl
publisher_from_string-to_string Publisher.xcbf_pitch_xcbf h = refl
publisher_from_string-to_string Publisher.xcbf_pitch_xoff h = refl
publisher_from_string-to_string Publisher.ocea_memoir_ocea h = refl
publisher_from_string-to_string Publisher.opra_pillar_mxto h = refl
publisher_from_string-to_string Publisher.opra_pillar_iexo h = refl
publisher_from_string-to_string Publisher.main_cgif_main h = refl
publisher_from_string-to_string Publisher.equs_sip_xase h = refl
publisher_from_string-to_string Publisher.equs_sip_xbos h = refl
publisher_from_string-to_string Publisher.equs_sip_xcis h = refl
publisher_from_string-to_string Publisher.equs_sip_txse h = refl
publisher_from_string-to_string Publisher.equs_sip24_eq h = refl
publisher_from_string-to_string Publisher.equs_sip_eprl h = refl
publisher_from_string-to_string Publisher.equs_sip_xisx h = refl
publisher_from_string-to_string Publisher.equs_sip_edga h = refl
publisher_from_string-to_string Publisher.equs_sip_edgx h = refl
publisher_from_string-to_string Publisher.equs_sip_ltse h = refl
publisher_from_string-to_string Publisher.equs_sip_xchi h = refl
publisher_from_string-to_string Publisher.equs_sip_xnys h = refl
publisher_from_string-to_string Publisher.equs_sip_arcx h = refl
publisher_from_string-to_string Publisher.equs_sip_xnas h = refl
publisher_from_string-to_string Publisher.equs_sip_memx h = refl
publisher_from_string-to_string Publisher.equs_sip_iexg h = refl
publisher_from_string-to_string Publisher.equs_sip_xpsx h = refl
publisher_from_string-to_string Publisher.equs_sip_baty h = refl
publisher_from_string-to_string Publisher.equs_sip_bats h = refl
publisher_from_string-to_string Publisher.equs_sip_finn h = refl
publisher_from_string-to_string Publisher.equs_sip_finy h = refl
publisher_from_string-to_string Publisher.equs_sip_finc h = refl
publisher_from_string-to_string Publisher.equs_sip_xadf h = refl
publisher_from_string-to_string Publisher.equs_sip_cta h = refl
publisher_from_string-to_string Publisher.equs_sip_utp h = refl
publisher_from_string-to_string Publisher.msci_cgif_msci h = refl
publisher_from_string-to_string Publisher.ftse_cgif_ftse h = refl
publisher_from_string-to_string Publisher.inav_cgif_inav h = refl
publisher_from_string-to_string Publisher.mstar_cgif_mstar h = refl
publisher_from_string-to_string Publisher.cccy_cgif_cccy h = refl
publisher_from_string-to_string Publisher.cgi_cgif_cgi h = refl
publisher_from_string-to_string Publisher.main_cgif_def h = refl
publisher_from_string-to_string Publisher.xtks_flex_xtks h = refl
publisher_from_string-to_string Publisher.xtkt_itch_xtkt h = refl
publisher_from_string-to_string Publisher.xose_itch_xose h = refl
publisher_from_string-to_string (Publisher.other value) h = absurd (cc)

names-agrees : agrees to_string names ≡ true
unfolding to_string
names-agrees = refl

-- `FromString` of a text gives a publisher that has an enumerator exactly where `ToString` of it is that
-- text.
pub publisher_from_string_iff :
    (str : String) (v : Publisher)
    → is_enumerator v ≡ true
    → (from_string str ≡ some v) ↔ (to_string v ≡ str)
unfolding from_string
publisher_from_string_iff str v h = (
  first_match-agrees to_string str names v names-agrees,
  λ e. rw (← e) (publisher_from_string-to_string v h),
)
