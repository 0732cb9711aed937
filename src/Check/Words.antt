-- ===== src/Check/Words.antt =====
-- The words and texts that zownc/crates/zown-check/src/lib.rs tests for, and `is_builtin` of
-- zownc/crates/zown-vm/src/lib.rs.
use zown.Prelude.{
  ℕ, Bool, true, false, ◌&&◌, ◌||◌, List, [], ◌∷◌, Option, none, some, Text, text, text_eq, leb,
  if◌then◌else◌,
}
use zown.Check.Sets.{contains}

unfoldable pub builtins : List Text
builtins =
    text "bf"
    ∷ text "bg"
    ∷ text "bp"
    ∷ text "hd"
    ∷ text "tl"
    ∷ text "ln"
    ∷ text "tr"
    ∷ text "up"
    ∷ text "lo"
    ∷ text "rv"
    ∷ text "pr"
    ∷ text "ab"
    ∷ text "mx"
    ∷ text "mn"
    ∷ text "sq"
    ∷ text "pw"
    ∷ text "fl"
    ∷ text "ce"
    ∷ text "rd"
    ∷ text "s"
    ∷ text "n"
    ∷ text "b"
    ∷ text "dp"
    ∷ text "rt"
    ∷ text "cl"
    ∷ text "ty"
    ∷ text "gr"
    ∷ text "rq"
    ∷ text "hv"
    ∷ text "wr"
    ∷ text "st"
    ∷ text "ck"
    ∷ text "i8"
    ∷ text "i16"
    ∷ text "i32"
    ∷ text "i64"
    ∷ text "ix"
    ∷ text "u8"
    ∷ text "u16"
    ∷ text "u32"
    ∷ text "u64"
    ∷ text "ux"
    ∷ text "vf"
    ∷ text "vd"
    ∷ text "vi"
    ∷ text "vu"
    ∷ text "va"
    ∷ text "vs"
    ∷ text "vm"
    ∷ text "vh"
    ∷ text "at"
    ∷ text "ct"
    ∷ text "rp"
    ∷ text "hw"
    ∷ text "lc"
    ∷ text "rn"
    ∷ text "pm"
    ∷ text "pn"
    ∷ text "ws"
    ∷ text "sg"
    ∷ text "wd"
    ∷ text "ts"
    ∷ text "pp"
    ∷ text "h3"
    ∷ text "av"
    ∷ text "ve"
    ∷ text "op"
    ∷ text "oe"
    ∷ text "ni"
    ∷ text "ua"
    ∷ text "co"
    ∷ text "tx"
    ∷ text "bt"
    ∷ text "bh"
    ∷ text "pk"
    ∷ text "ky"
    ∷ text "an"
    ∷ text "gp"
    ∷ text "rw"
    ∷ text "cm"
    ∷ text "ly"
    ∷ text "gv"
    ∷ text "ge"
    ∷ text "gs"
    ∷ text "gl"
    ∷ text "gh"
    ∷ text "sb"
    ∷ text "so"
    ∷ text "sl"
    ∷ text "la"
    ∷ text "lp"
    ∷ text "lr"
    ∷ text "mg"
    ∷ text "tc"
    ∷ text "tu"
    ∷ text "tq"
    ∷ text "mm"
    ∷ text "mo"
    ∷ text "ml"
    ∷ text "ch"
    ∷ text "vr"
    ∷ text "td"
    ∷ text "sp"
    ∷ text "se"
    ∷ text "nt"
    ∷ text "wn"
    ∷ text "ob"
    ∷ text "df"
    ∷ text "rm"
    ∷ text "lg"
    ∷ text "gd"
    ∷ text "fr"
    ∷ text "fw"
    ∷ text "ac"
    ∷ text "ag"
    ∷ text "en"
    ∷ text "tm"
    ∷ text "ae"
    ∷ text "ad"
    ∷ text "es"
    ∷ text "ev"
    ∷ text "xk"
    ∷ text "iz"
    ∷ text "uz"
    ∷ text "dc"
    ∷ text "cx"
    ∷ text "ls"
    ∷ text "mp"
    ∷ text "sc"
    ∷ text "qu"
    ∷ text "rg"
    ∷ text "te"
    ∷ text "ti"
    ∷ text "bm"
    ∷ text "pq"
    ∷ text "bv"
    ∷ text "ps"
    ∷ text "po"
    ∷ text "gt"
    ∷ text "pt"
    ∷ text "hs"
    ∷ text "sk"
    ∷ text "px"
    ∷ text "cs"
    ∷ text "sw"
    ∷ []

unfoldable pub is_builtin : Text → Bool
unfolding builtins
is_builtin w = contains builtins w

abbrev pub pattern_types : List Text
pattern_types =
    text "int"
    ∷ text "float"
    ∷ text "str"
    ∷ text "block"
    ∷ text "cap"
    ∷ text "width"
    ∷ text "vec"
    ∷ text "big"
    ∷ text "res"
    ∷ text "color"
    ∷ text "node"
    ∷ text "cur"
    ∷ text "buf"
    ∷ text "stm"
    ∷ text "dc"
    ∷ text "cx"
    ∷ text "ls"
    ∷ text "mp"
    ∷ text "sc"
    ∷ text "qu"
    ∷ text "rg"
    ∷ text "te"
    ∷ text "ti"
    ∷ text "bm"
    ∷ text "pq"
    ∷ text "bv"
    ∷ []

abbrev pub res_patterns : List Text
res_patterns = text "ok" ∷ text "err" ∷ []

abbrev pub vec_ctors : List Text
vec_ctors = text "vf" ∷ text "vd" ∷ text "vi" ∷ text "vu" ∷ []

abbrev pub box_ctors : List Text
box_ctors = text "rw" ∷ text "cm" ∷ []

abbrev pub invoking_ops : List Text
invoking_ops = text "@" ∷ text ";" ∷ text "??" ∷ []

abbrev pub invoking_words : List Text
invoking_words =
    text "gr"
    ∷ text "ty"
    ∷ text "gd"
    ∷ text "gp"
    ∷ text "vf"
    ∷ text "vd"
    ∷ text "vi"
    ∷ text "vu"
    ∷ text "rw"
    ∷ text "cm"
    ∷ []

abbrev pub one_of : List Text → Text → Bool
one_of ws w = contains ws w

unfoldable pub net_cap : Text → Option Text
net_cap w =
    if one_of (text "~o" ∷ text "~s" ∷ text "~c" ∷ []) w
    then some (text "t")
    else if one_of (text "~l" ∷ text "~r" ∷ []) w
    then some (text "r")
    else none

unfoldable pub host_cap : Text → Option Text
host_cap w =
    if one_of (text "fr" ∷ text "fw" ∷ text "mm" ∷ text "mo" ∷ text "ml" ∷ []) w
    then some (text "d")
    else if text_eq w (text "en")
    then some (text "v")
    else if text_eq w (text "tm")
    then some (text "c")
    else none

unfoldable pub host_hint : Text → Text
host_hint w =
    if one_of (text "fr" ∷ text "fw" ∷ text "mm" ∷ text "mo" ∷ text "ml" ∷ []) w
    then text "grant a path: $path$ [ ... ] gd"
    else if text_eq w (text "en")
    then text "grant it: `v [ ... ] gr"
    else if text_eq w (text "tm")
    then text "grant it: `c [ ... ] gr"
    else if one_of (text "~o" ∷ text "~s" ∷ text "~c" ∷ []) w
    then text "grant it: `t [ ... ] gr"
    else if one_of (text "~l" ∷ text "~r" ∷ []) w
    then text "grant it: `r [ ... ] gr"
    else if text_eq w (text "~w")
    then text "grant it: `r [ ... ] gr and `t [ ... ] gr"
    else text "run it inside a grant"

abbrev pub is_ascii_alphabetic : ℕ → Bool
is_ascii_alphabetic c = leb b'a' c && leb c b'z' || leb b'A' c && leb c b'Z'

abbrev pub all_alphanumeric : Text → Bool
all_alphanumeric [] = true
all_alphanumeric (c ∷ cs) =
    (is_ascii_alphabetic c || leb b'0' c && leb c b'9') && all_alphanumeric cs

unfoldable pub wd_name : Text → Bool
wd_name [] = false
wd_name (c ∷ cs) = is_ascii_alphabetic c && all_alphanumeric cs
