-- ===== src/Publishers/Venue.antt =====
-- include/databento/publishers.hpp, src/publishers.cpp: `Venue`, the venues.
use databento_cpp.Base.{ℕ, ◌≡◌, refl, Bool, true, false, Option, some, [], ◌∷◌, ◌↔◌}
use Prim.Native.String.{String}
use databento_cpp.Enums.{Names, first_match, agrees, first_match-agrees}

-- The enumerators, and the values of the underlying type that have none.
pub data Venue : Type 0 where
  glbx xnas xbos xpsx bats baty edga edgx xnys xcis xase arcx xchi iexg finn finc finy : Venue
  memx eprl amxo xbox xcbo emld edgo gmni xisx mcry xmio arco opra mprl xndq xbxo c2_ox : Venue
  xphl bato mxop ifeu ndex dbeq sphr ltse xoff aspn asmt aspi equs ifus ifll xeur xeee : Venue
  xcbf ocea mxto iexo main txse _24_eq cta utp xadf msci ftse inav mstar cccy cgi def : Venue
  xtks xtkt xose : Venue
  other : ℕ → Venue

abbrev pub is_enumerator : Venue → Bool
is_enumerator (other value) = false
is_enumerator _ = true

unfoldable pub to_string : Venue → String
to_string glbx = "GLBX"
to_string xnas = "XNAS"
to_string xbos = "XBOS"
to_string xpsx = "XPSX"
to_string bats = "BATS"
to_string baty = "BATY"
to_string edga = "EDGA"
to_string edgx = "EDGX"
to_string xnys = "XNYS"
to_string xcis = "XCIS"
to_string xase = "XASE"
to_string arcx = "ARCX"
to_string xchi = "XCHI"
to_string iexg = "IEXG"
to_string finn = "FINN"
to_string finc = "FINC"
to_string finy = "FINY"
to_string memx = "MEMX"
to_string eprl = "EPRL"
to_string amxo = "AMXO"
to_string xbox = "XBOX"
to_string xcbo = "XCBO"
to_string emld = "EMLD"
to_string edgo = "EDGO"
to_string gmni = "GMNI"
to_string xisx = "XISX"
to_string mcry = "MCRY"
to_string xmio = "XMIO"
to_string arco = "ARCO"
to_string opra = "OPRA"
to_string mprl = "MPRL"
to_string xndq = "XNDQ"
to_string xbxo = "XBXO"
to_string c2_ox = "C2OX"
to_string xphl = "XPHL"
to_string bato = "BATO"
to_string mxop = "MXOP"
to_string ifeu = "IFEU"
to_string ndex = "NDEX"
to_string dbeq = "DBEQ"
to_string sphr = "SPHR"
to_string ltse = "LTSE"
to_string xoff = "XOFF"
to_string aspn = "ASPN"
to_string asmt = "ASMT"
to_string aspi = "ASPI"
to_string equs = "EQUS"
to_string ifus = "IFUS"
to_string ifll = "IFLL"
to_string xeur = "XEUR"
to_string xeee = "XEEE"
to_string xcbf = "XCBF"
to_string ocea = "OCEA"
to_string mxto = "MXTO"
to_string iexo = "IEXO"
to_string main = "MAIN"
to_string txse = "TXSE"
to_string _24_eq = "24EQ"
to_string cta = "CTA"
to_string utp = "UTP"
to_string xadf = "XADF"
to_string msci = "MSCI"
to_string ftse = "FTSE"
to_string inav = "INAV"
to_string mstar = "MSTAR"
to_string cccy = "CCCY"
to_string cgi = "CGI"
to_string def = "DEF"
to_string xtks = "XTKS"
to_string xtkt = "XTKT"
to_string xose = "XOSE"
to_string (other value) = "Unknown"

-- The texts that `FromString` compares with, in its order.
abbrev pub names : Names Venue
names =
    ("GLBX", glbx)
    ∷ ("XNAS", xnas)
    ∷ ("XBOS", xbos)
    ∷ ("XPSX", xpsx)
    ∷ ("BATS", bats)
    ∷ ("BATY", baty)
    ∷ ("EDGA", edga)
    ∷ ("EDGX", edgx)
    ∷ ("XNYS", xnys)
    ∷ ("XCIS", xcis)
    ∷ ("XASE", xase)
    ∷ ("ARCX", arcx)
    ∷ ("XCHI", xchi)
    ∷ ("IEXG", iexg)
    ∷ ("FINN", finn)
    ∷ ("FINC", finc)
    ∷ ("FINY", finy)
    ∷ ("MEMX", memx)
    ∷ ("EPRL", eprl)
    ∷ ("AMXO", amxo)
    ∷ ("XBOX", xbox)
    ∷ ("XCBO", xcbo)
    ∷ ("EMLD", emld)
    ∷ ("EDGO", edgo)
    ∷ ("GMNI", gmni)
    ∷ ("XISX", xisx)
    ∷ ("MCRY", mcry)
    ∷ ("XMIO", xmio)
    ∷ ("ARCO", arco)
    ∷ ("OPRA", opra)
    ∷ ("MPRL", mprl)
    ∷ ("XNDQ", xndq)
    ∷ ("XBXO", xbxo)
    ∷ ("C2OX", c2_ox)
    ∷ ("XPHL", xphl)
    ∷ ("BATO", bato)
    ∷ ("MXOP", mxop)
    ∷ ("IFEU", ifeu)
    ∷ ("NDEX", ndex)
    ∷ ("DBEQ", dbeq)
    ∷ ("SPHR", sphr)
    ∷ ("LTSE", ltse)
    ∷ ("XOFF", xoff)
    ∷ ("ASPN", aspn)
    ∷ ("ASMT", asmt)
    ∷ ("ASPI", aspi)
    ∷ ("EQUS", equs)
    ∷ ("IFUS", ifus)
    ∷ ("IFLL", ifll)
    ∷ ("XEUR", xeur)
    ∷ ("XEEE", xeee)
    ∷ ("XCBF", xcbf)
    ∷ ("OCEA", ocea)
    ∷ ("MXTO", mxto)
    ∷ ("IEXO", iexo)
    ∷ ("MAIN", main)
    ∷ ("TXSE", txse)
    ∷ ("24EQ", _24_eq)
    ∷ ("CTA", cta)
    ∷ ("UTP", utp)
    ∷ ("XADF", xadf)
    ∷ ("MSCI", msci)
    ∷ ("FTSE", ftse)
    ∷ ("INAV", inav)
    ∷ ("MSTAR", mstar)
    ∷ ("CCCY", cccy)
    ∷ ("CGI", cgi)
    ∷ ("DEF", def)
    ∷ ("XTKS", xtks)
    ∷ ("XTKT", xtkt)
    ∷ ("XOSE", xose)
    ∷ []

-- `none` for the `InvalidArgumentError`.
unfoldable pub from_string : String → Option Venue
from_string str = first_match str names

pub venue_from_string-to_string :
    (v : Venue) → is_enumerator v ≡ true → from_string (to_string v) ≡ some v
unfolding from_string to_string
venue_from_string-to_string glbx h = refl
venue_from_string-to_string xnas h = refl
venue_from_string-to_string xbos h = refl
venue_from_string-to_string xpsx h = refl
venue_from_string-to_string bats h = refl
venue_from_string-to_string baty h = refl
venue_from_string-to_string edga h = refl
venue_from_string-to_string edgx h = refl
venue_from_string-to_string xnys h = refl
venue_from_string-to_string xcis h = refl
venue_from_string-to_string xase h = refl
venue_from_string-to_string arcx h = refl
venue_from_string-to_string xchi h = refl
venue_from_string-to_string iexg h = refl
venue_from_string-to_string finn h = refl
venue_from_string-to_string finc h = refl
venue_from_string-to_string finy h = refl
venue_from_string-to_string memx h = refl
venue_from_string-to_string eprl h = refl
venue_from_string-to_string amxo h = refl
venue_from_string-to_string xbox h = refl
venue_from_string-to_string xcbo h = refl
venue_from_string-to_string emld h = refl
venue_from_string-to_string edgo h = refl
venue_from_string-to_string gmni h = refl
venue_from_string-to_string xisx h = refl
venue_from_string-to_string mcry h = refl
venue_from_string-to_string xmio h = refl
venue_from_string-to_string arco h = refl
venue_from_string-to_string opra h = refl
venue_from_string-to_string mprl h = refl
venue_from_string-to_string xndq h = refl
venue_from_string-to_string xbxo h = refl
venue_from_string-to_string c2_ox h = refl
venue_from_string-to_string xphl h = refl
venue_from_string-to_string bato h = refl
venue_from_string-to_string mxop h = refl
venue_from_string-to_string ifeu h = refl
venue_from_string-to_string ndex h = refl
venue_from_string-to_string dbeq h = refl
venue_from_string-to_string sphr h = refl
venue_from_string-to_string ltse h = refl
venue_from_string-to_string xoff h = refl
venue_from_string-to_string aspn h = refl
venue_from_string-to_string asmt h = refl
venue_from_string-to_string aspi h = refl
venue_from_string-to_string equs h = refl
venue_from_string-to_string ifus h = refl
venue_from_string-to_string ifll h = refl
venue_from_string-to_string xeur h = refl
venue_from_string-to_string xeee h = refl
venue_from_string-to_string xcbf h = refl
venue_from_string-to_string ocea h = refl
venue_from_string-to_string mxto h = refl
venue_from_string-to_string iexo h = refl
venue_from_string-to_string main h = refl
venue_from_string-to_string txse h = refl
venue_from_string-to_string _24_eq h = refl
venue_from_string-to_string cta h = refl
venue_from_string-to_string utp h = refl
venue_from_string-to_string xadf h = refl
venue_from_string-to_string msci h = refl
venue_from_string-to_string ftse h = refl
venue_from_string-to_string inav h = refl
venue_from_string-to_string mstar h = refl
venue_from_string-to_string cccy h = refl
venue_from_string-to_string cgi h = refl
venue_from_string-to_string def h = refl
venue_from_string-to_string xtks h = refl
venue_from_string-to_string xtkt h = refl
venue_from_string-to_string xose h = refl
venue_from_string-to_string (other value) h = absurd (cc)

names-agrees : agrees to_string names ≡ true
unfolding to_string
names-agrees = refl

-- `FromString` of a text gives an enumerator exactly where `ToString` of it is that text.
pub venue_from_string_iff :
    (str : String) (v : Venue)
    → is_enumerator v ≡ true
    → (from_string str ≡ some v) ↔ (to_string v ≡ str)
unfolding from_string
venue_from_string_iff str v h = (
  first_match-agrees to_string str names v names-agrees,
  λ e. rw (← e) (venue_from_string-to_string v h),
)
