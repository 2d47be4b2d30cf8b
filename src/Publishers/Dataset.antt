-- ===== src/Publishers/Dataset.antt =====
-- include/databento/publishers.hpp, src/publishers.cpp: `Dataset`, the datasets.
use databento_cpp.Base.{ℕ, ◌≡◌, refl, Bool, true, false, Option, some, [], ◌∷◌, ◌↔◌}
use Prim.Native.String.{String}
use databento_cpp.Enums.{Names, first_match, agrees, first_match-agrees}

-- The enumerators, and the values of the underlying type that have none.
pub data Dataset : Type 0 where
  glbx_mdp3 xnas_itch xbos_itch xpsx_itch bats_pitch baty_pitch edga_pitch edgx_pitch : Dataset
  xnys_pillar xcis_pillar xase_pillar xchi_pillar xcis_bbo xcis_trades memx_memoir : Dataset
  eprl_dom finn_nls finy_trades opra_pillar dbeq_basic arcx_pillar iexg_tops equs_plus : Dataset
  xnys_bbo xnys_trades xnas_qbbo xnas_nls ifeu_impact ndex_impact equs_all xnas_basic : Dataset
  equs_summary xcis_tradesbbo xnys_tradesbbo equs_mini ifus_impact ifll_impact xeur_eobi : Dataset
  xeee_eobi xcbf_pitch ocea_memoir main_cgif equs_sip msci_cgif ftse_cgif inav_cgif : Dataset
  mstar_cgif cccy_cgif cgi_cgif xtks_flex xtkt_itch xose_itch : Dataset
  other : ℕ → Dataset

abbrev pub is_enumerator : Dataset → Bool
is_enumerator (other value) = false
is_enumerator _ = true

unfoldable pub to_string : Dataset → String
to_string glbx_mdp3 = "GLBX.MDP3"
to_string xnas_itch = "XNAS.ITCH"
to_string xbos_itch = "XBOS.ITCH"
to_string xpsx_itch = "XPSX.ITCH"
to_string bats_pitch = "BATS.PITCH"
to_string baty_pitch = "BATY.PITCH"
to_string edga_pitch = "EDGA.PITCH"
to_string edgx_pitch = "EDGX.PITCH"
to_string xnys_pillar = "XNYS.PILLAR"
to_string xcis_pillar = "XCIS.PILLAR"
to_string xase_pillar = "XASE.PILLAR"
to_string xchi_pillar = "XCHI.PILLAR"
to_string xcis_bbo = "XCIS.BBO"
to_string xcis_trades = "XCIS.TRADES"
to_string memx_memoir = "MEMX.MEMOIR"
to_string eprl_dom = "EPRL.DOM"
to_string finn_nls = "FINN.NLS"
to_string finy_trades = "FINY.TRADES"
to_string opra_pillar = "OPRA.PILLAR"
to_string dbeq_basic = "DBEQ.BASIC"
to_string arcx_pillar = "ARCX.PILLAR"
to_string iexg_tops = "IEXG.TOPS"
to_string equs_plus = "EQUS.PLUS"
to_string xnys_bbo = "XNYS.BBO"
to_string xnys_trades = "XNYS.TRADES"
to_string xnas_qbbo = "XNAS.QBBO"
to_string xnas_nls = "XNAS.NLS"
to_string ifeu_impact = "IFEU.IMPACT"
to_string ndex_impact = "NDEX.IMPACT"
to_string equs_all = "EQUS.ALL"
to_string xnas_basic = "XNAS.BASIC"
to_string equs_summary = "EQUS.SUMMARY"
to_string xcis_tradesbbo = "XCIS.TRADESBBO"
to_string xnys_tradesbbo = "XNYS.TRADESBBO"
to_string equs_mini = "EQUS.MINI"
to_string ifus_impact = "IFUS.IMPACT"
to_string ifll_impact = "IFLL.IMPACT"
to_string xeur_eobi = "XEUR.EOBI"
to_string xeee_eobi = "XEEE.EOBI"
to_string xcbf_pitch = "XCBF.PITCH"
to_string ocea_memoir = "OCEA.MEMOIR"
to_string main_cgif = "MAIN.CGIF"
to_string equs_sip = "EQUS.SIP"
to_string msci_cgif = "MSCI.CGIF"
to_string ftse_cgif = "FTSE.CGIF"
to_string inav_cgif = "INAV.CGIF"
to_string mstar_cgif = "MSTAR.CGIF"
to_string cccy_cgif = "CCCY.CGIF"
to_string cgi_cgif = "CGI.CGIF"
to_string xtks_flex = "XTKS.FLEX"
to_string xtkt_itch = "XTKT.ITCH"
to_string xose_itch = "XOSE.ITCH"
to_string (other value) = "Unknown"

-- The texts that `FromString` compares with, in its order.
abbrev pub names : Names Dataset
names =
    ("GLBX.MDP3", glbx_mdp3)
    ∷ ("XNAS.ITCH", xnas_itch)
    ∷ ("XBOS.ITCH", xbos_itch)
    ∷ ("XPSX.ITCH", xpsx_itch)
    ∷ ("BATS.PITCH", bats_pitch)
    ∷ ("BATY.PITCH", baty_pitch)
    ∷ ("EDGA.PITCH", edga_pitch)
    ∷ ("EDGX.PITCH", edgx_pitch)
    ∷ ("XNYS.PILLAR", xnys_pillar)
    ∷ ("XCIS.PILLAR", xcis_pillar)
    ∷ ("XASE.PILLAR", xase_pillar)
    ∷ ("XCHI.PILLAR", xchi_pillar)
    ∷ ("XCIS.BBO", xcis_bbo)
    ∷ ("XCIS.TRADES", xcis_trades)
    ∷ ("MEMX.MEMOIR", memx_memoir)
    ∷ ("EPRL.DOM", eprl_dom)
    ∷ ("FINN.NLS", finn_nls)
    ∷ ("FINY.TRADES", finy_trades)
    ∷ ("OPRA.PILLAR", opra_pillar)
    ∷ ("DBEQ.BASIC", dbeq_basic)
    ∷ ("ARCX.PILLAR", arcx_pillar)
    ∷ ("IEXG.TOPS", iexg_tops)
    ∷ ("EQUS.PLUS", equs_plus)
    ∷ ("XNYS.BBO", xnys_bbo)
    ∷ ("XNYS.TRADES", xnys_trades)
    ∷ ("XNAS.QBBO", xnas_qbbo)
    ∷ ("XNAS.NLS", xnas_nls)
    ∷ ("IFEU.IMPACT", ifeu_impact)
    ∷ ("NDEX.IMPACT", ndex_impact)
    ∷ ("EQUS.ALL", equs_all)
    ∷ ("XNAS.BASIC", xnas_basic)
    ∷ ("EQUS.SUMMARY", equs_summary)
    ∷ ("XCIS.TRADESBBO", xcis_tradesbbo)
    ∷ ("XNYS.TRADESBBO", xnys_tradesbbo)
    ∷ ("EQUS.MINI", equs_mini)
    ∷ ("IFUS.IMPACT", ifus_impact)
    ∷ ("IFLL.IMPACT", ifll_impact)
    ∷ ("XEUR.EOBI", xeur_eobi)
    ∷ ("XEEE.EOBI", xeee_eobi)
    ∷ ("XCBF.PITCH", xcbf_pitch)
    ∷ ("OCEA.MEMOIR", ocea_memoir)
    ∷ ("MAIN.CGIF", main_cgif)
    ∷ ("EQUS.SIP", equs_sip)
    ∷ ("MSCI.CGIF", msci_cgif)
    ∷ ("FTSE.CGIF", ftse_cgif)
    ∷ ("INAV.CGIF", inav_cgif)
    ∷ ("MSTAR.CGIF", mstar_cgif)
    ∷ ("CCCY.CGIF", cccy_cgif)
    ∷ ("CGI.CGIF", cgi_cgif)
    ∷ ("XTKS.FLEX", xtks_flex)
    ∷ ("XTKT.ITCH", xtkt_itch)
    ∷ ("XOSE.ITCH", xose_itch)
    ∷ []

-- `none` for the `InvalidArgumentError`.
unfoldable pub from_string : String → Option Dataset
from_string str = first_match str names

pub dataset_from_string-to_string :
    (v : Dataset) → is_enumerator v ≡ true → from_string (to_string v) ≡ some v
unfolding from_string to_string
dataset_from_string-to_string glbx_mdp3 h = refl
dataset_from_string-to_string xnas_itch h = refl
dataset_from_string-to_string xbos_itch h = refl
dataset_from_string-to_string xpsx_itch h = refl
dataset_from_string-to_string bats_pitch h = refl
dataset_from_string-to_string baty_pitch h = refl
dataset_from_string-to_string edga_pitch h = refl
dataset_from_string-to_string edgx_pitch h = refl
dataset_from_string-to_string xnys_pillar h = refl
dataset_from_string-to_string xcis_pillar h = refl
dataset_from_string-to_string xase_pillar h = refl
dataset_from_string-to_string xchi_pillar h = refl
dataset_from_string-to_string xcis_bbo h = refl
dataset_from_string-to_string xcis_trades h = refl
dataset_from_string-to_string memx_memoir h = refl
dataset_from_string-to_string eprl_dom h = refl
dataset_from_string-to_string finn_nls h = refl
dataset_from_string-to_string finy_trades h = refl
dataset_from_string-to_string opra_pillar h = refl
dataset_from_string-to_string dbeq_basic h = refl
dataset_from_string-to_string arcx_pillar h = refl
dataset_from_string-to_string iexg_tops h = refl
dataset_from_string-to_string equs_plus h = refl
dataset_from_string-to_string xnys_bbo h = refl
dataset_from_string-to_string xnys_trades h = refl
dataset_from_string-to_string xnas_qbbo h = refl
dataset_from_string-to_string xnas_nls h = refl
dataset_from_string-to_string ifeu_impact h = refl
dataset_from_string-to_string ndex_impact h = refl
dataset_from_string-to_string equs_all h = refl
dataset_from_string-to_string xnas_basic h = refl
dataset_from_string-to_string equs_summary h = refl
dataset_from_string-to_string xcis_tradesbbo h = refl
dataset_from_string-to_string xnys_tradesbbo h = refl
dataset_from_string-to_string equs_mini h = refl
dataset_from_string-to_string ifus_impact h = refl
dataset_from_string-to_string ifll_impact h = refl
dataset_from_string-to_string xeur_eobi h = refl
dataset_from_string-to_string xeee_eobi h = refl
dataset_from_string-to_string xcbf_pitch h = refl
dataset_from_string-to_string ocea_memoir h = refl
dataset_from_string-to_string main_cgif h = refl
dataset_from_string-to_string equs_sip h = refl
dataset_from_string-to_string msci_cgif h = refl
dataset_from_string-to_string ftse_cgif h = refl
dataset_from_string-to_string inav_cgif h = refl
dataset_from_string-to_string mstar_cgif h = refl
dataset_from_string-to_string cccy_cgif h = refl
dataset_from_string-to_string cgi_cgif h = refl
dataset_from_string-to_string xtks_flex h = refl
dataset_from_string-to_string xtkt_itch h = refl
dataset_from_string-to_string xose_itch h = refl
dataset_from_string-to_string (other value) h = absurd (cc)

names-agrees : agrees to_string names ≡ true
unfolding to_string
names-agrees = refl

-- `FromString` of a text gives an enumerator exactly where `ToString` of it is that text.
pub dataset_from_string_iff :
    (str : String) (v : Dataset)
    → is_enumerator v ≡ true
    → (from_string str ≡ some v) ↔ (to_string v ≡ str)
unfolding from_string
dataset_from_string_iff str v h = (
  first_match-agrees to_string str names v names-agrees,
  λ e. rw (← e) (dataset_from_string-to_string v h),
)
