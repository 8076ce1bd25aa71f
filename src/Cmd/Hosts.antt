-- ===== src/Cmd/Hosts.antt =====
-- internal/cmd/local/check.go: validateHostFlag.
-- The regular expression is matched character by character; Hosts/Language proves that this accepts
-- the texts of the expression.
pub mod Language
use abctl.Common.{
  String, Char, code, Bool, true, false, ◌||◌, ◌&&◌, leb, eqb, if◌then◌else◌, List, [], ◌∷◌, Result,
  ok, err,
}
use Prim.Native.String.{[], ◌∷◌}
use abctl.Cmd.{System, err_ip_address_for_host_flag, err_invalid_host_flag}

-- [a-z0-9], and the characters `-` and `.`
abbrev pub is_alnum : Char → Bool
is_alnum c = let n = code c in (leb 97 n && leb n 122) || (leb 48 n && leb n 57)

abbrev pub is_dash : Char → Bool
is_dash c = eqb (code c) b'-'

abbrev pub is_dot : Char → Bool
is_dot c = eqb (code c) b'.'

-- At the start of a label, after one of its letters and digits, or after one of its dashes.
pub data Place : Type 0 where
  at_start : Place
  in_label : Place
  after_dash : Place

-- ^[a-z0-9](?:[-a-z0-9]*[a-z0-9])?(?:\.[a-z0-9](?:[-a-z0-9]*[a-z0-9])?)*$, from a place on.
unfoldable pub host_from : Place → String → Bool
host_from at_start [] = false
host_from in_label [] = true
host_from after_dash [] = false
host_from at_start (c ∷ s) = let label = host_from in_label s in if is_alnum c then label else false
host_from in_label (c ∷ s) =
    let label = host_from in_label s in
    let dash = host_from after_dash s in
    let next = host_from at_start s in
    if is_alnum c then label else if is_dash c then dash else if is_dot c then next else false
host_from after_dash (c ∷ s) =
    let label = host_from in_label s in
    let dash = host_from after_dash s in
    if is_alnum c then label else if is_dash c then dash else false

unfoldable pub validate_host_flag : System → String → Result (Unit {0})
unfolding host_from
validate_host_flag sys host =
    if sys.is_ip host
    then err err_ip_address_for_host_flag
    else if host_from at_start host
    then ok tt
    else err err_invalid_host_flag
