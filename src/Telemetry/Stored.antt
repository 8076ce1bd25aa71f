-- ===== src/Telemetry/Stored.antt =====
-- The configuration that is written is the one that is read back.
use abctl.Common.{
  String, Bool-cases, false, ◌==◌, eq_iff, eq_refl, none, Result, ok, ◌≡◌, refl, sym, ap, ◌∙◌, inl,
  inr, arith,
}
use abctl.Maps.{Fields, end, field, get}
use abctl.Telemetry.{
  Config, Libraries, zero_ulid, nil_uuid, field_user_id, field_analytics_id, remove, read_id,
  with_id, config_of, config_fields,
}

remove-absent : (k : String) (m : Fields) → get k m ≡ none → remove k m ≡ m
unfolding get remove
remove-absent k end h = refl
remove-absent k (field j v m) h = ground (arith, remove-absent k m)

-- An identifier that is written is read, and taken out again.
read_id-with_id :
    (what name zero_id id : String) (parse : String → Result String) (m : Fields)
    → parse id ≡ ok id
    → get name m ≡ none
    → read_id what zero_id parse (get name (with_id name zero_id id m)) ≡ ok id
unfolding get read_id
read_id-with_id what name zero_id id parse m parses absent = elim (Bool-cases (id == zero_id)) [
  | inl zero ↦ rw (zero, absent) (ap ok (sym ((eq_iff id zero_id).0 zero)))
  | inr given ↦ rw (given, eq_refl name, parses) refl
]

remove-with_id :
    (name zero_id id : String) (m : Fields)
    → get name m ≡ none
    → remove name (with_id name zero_id id m) ≡ m
unfolding remove
remove-with_id name zero_id id m absent = elim (Bool-cases (id == zero_id)) [
  | inl zero ↦ rw zero (remove-absent name m absent)
  | inr given ↦ rw (given, eq_refl name) (remove-absent name m absent)
]

-- Another identifier is passed over.
get-with_id :
    (k name zero_id id : String) (m : Fields)
    → (name == k) ≡ false
    → get k (with_id name zero_id id m) ≡ get k m
unfolding get
get-with_id k name zero_id id m other = elim (Bool-cases (id == zero_id)) [
  | inl zero ↦ rw zero refl
  | inr given ↦ rw (given, other) refl
]

-- The identifiers are as their libraries print them, and no other member has their names.
pub record IsCanonical (lib : Libraries) (c : Config) : Type 0 where
  pub user_parses : lib.parse_ulid c.user_id ≡ ok c.user_id
  pub analytics_parses : lib.parse_uuid c.analytics_id ≡ ok c.analytics_id
  pub no_user : get field_user_id c.other ≡ none
  pub no_analytics : get field_analytics_id c.other ≡ none

-- A configuration with canonical identifiers, and other members under other names, is read back from
-- the members that are written of it, an identifier that is zero and so is left out included.
pub config_of-config_fields :
    (lib : Libraries) (c : Config) → IsCanonical lib c → config_of lib (config_fields c) ≡ ok c
unfolding config_of config_fields
config_of-config_fields lib c canonical =
    let inner = with_id field_analytics_id nil_uuid c.analytics_id c.other in
    let no_user : get field_user_id inner ≡ none =
      get-with_id field_user_id field_analytics_id nil_uuid c.analytics_id c.other refl
      ∙ canonical.no_user in
    let user_read =
      read_id-with_id "ulid" field_user_id zero_ulid c.user_id lib.parse_ulid inner
        canonical.user_parses no_user in
    let analytics_read =
      read_id-with_id "uuid" field_analytics_id nil_uuid c.analytics_id lib.parse_uuid c.other
        canonical.analytics_parses canonical.no_analytics in
    let passed = get-with_id field_analytics_id field_user_id zero_ulid c.user_id inner refl in
    let taken = remove-with_id field_user_id zero_ulid c.user_id inner no_user in
    let rest =
      remove-with_id field_analytics_id nil_uuid c.analytics_id c.other canonical.no_analytics in
    rw (user_read, passed, analytics_read, taken, rest) refl
