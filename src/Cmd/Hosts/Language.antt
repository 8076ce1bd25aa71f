-- ===== src/Cmd/Hosts/Language.antt =====
-- The language of the regular expression of host names.
use Prim.Native.String.{[], ◌∷◌}
use mathlib.Core.Path.{subst}
use abctl.Common.{
  String, Char, Bool, Bool-cases, true, false, ◌||◌, ◌++◌, append_assoc, ◌≡◌, ◌↔◌, refl, sym, ap,
  ◌⊎◌, inl, inr, ok, arith,
}
use abctl.Cmd.Hosts.{
  is_alnum, is_dash, is_dot, Place, at_start, in_label, after_dash, host_from, validate_host_flag,
}
use abctl.Cmd.{System}

-- What the operators of a regular expression stand for: sets of texts.
abbrev pub Class : (Char → Bool) → String → Type 0
Class p s = (c : Char) × (s ≡ c ∷ "") × (p c ≡ true)

abbrev pub Seq : (String → Type 0) → (String → Type 0) → String → Type 0
Seq L M s = (a : String) × (b : String) × (s ≡ a ++ b) × L a × M b

abbrev pub Opt : (String → Type 0) → String → Type 0
Opt L s = (s ≡ "") ⊎ L s

pub data Star (L : String → Type 0) : String → Type 0 where
  done : Star L ""
  more : {a b : String} → L a → Star L b → Star L (a ++ b)

abbrev pub Alnum : String → Type 0
Alnum s = Class is_alnum s

-- [-a-z0-9]
abbrev pub LabelChar : String → Type 0
LabelChar s = Class (λ c. is_dash c || is_alnum c) s

-- [-a-z0-9]*[a-z0-9]
abbrev pub LabelEnd : String → Type 0
LabelEnd s = Seq (Star LabelChar) Alnum s

-- [a-z0-9](?:[-a-z0-9]*[a-z0-9])?
abbrev pub Label : String → Type 0
Label s = Seq Alnum (Opt LabelEnd) s

-- \.[a-z0-9](?:[-a-z0-9]*[a-z0-9])?
abbrev pub NextLabel : String → Type 0
NextLabel s = Seq (Class is_dot) Label s

abbrev pub HostName : String → Type 0
HostName s = Seq Label (Star NextLabel) s

-- What may follow at a place.
abbrev Rest : Place → String → Type 0
Rest at_start s = HostName s
Rest in_label s = Seq (Opt LabelEnd) (Star NextLabel) s
Rest after_dash s = Seq LabelEnd (Star NextLabel) s

-- A character of a label before its end, and as the end itself.
end_with : (c : Char) (x : String) → is_alnum c ≡ true → Opt LabelEnd x → LabelEnd (c ∷ x)
end_with c x alnum (inl empty) =
    ("", c ∷ "", ap (λ (t : String). c ∷ t) empty, done, (c, refl, alnum))
end_with c x alnum (inr (u, v, eq, inner, last)) =
    (c ∷ u, v, ap (λ (t : String). c ∷ t) eq, more (c, refl, ground (arith, alnum)) inner, last)

dash_with : (c : Char) (x : String) → is_dash c ≡ true → LabelEnd x → LabelEnd (c ∷ x)
dash_with c x dash (u, v, eq, inner, last) =
    (c ∷ u, v, ap (λ (t : String). c ∷ t) eq, more (c, refl, ground (arith, dash)) inner, last)

host_from-Rest : (q : Place) (s : String) → host_from q s ≡ true → Rest q s
unfolding host_from
host_from-Rest at_start [] h = cc
host_from-Rest in_label [] h = ("", "", refl, inl refl, done)
host_from-Rest after_dash [] h = cc
host_from-Rest at_start (c ∷ s) h = elim (Bool-cases (is_alnum c)) [
  | inl alnum ↦
      let (x, y, eq, opt, star) = host_from-Rest in_label s (rw alnum at h) in
      (c ∷ x, y, ap (λ (t : String). c ∷ t) eq, (c ∷ "", x, refl, (c, refl, alnum), opt), star)
  | inr other ↦ let gone = (rw other at h) in cc
]
host_from-Rest in_label (c ∷ s) h = elim (Bool-cases (is_alnum c)) [
  | inl alnum ↦
      let (x, y, eq, opt, star) = host_from-Rest in_label s (rw alnum at h) in
      (c ∷ x, y, ap (λ (t : String). c ∷ t) eq, inr (end_with c x alnum opt), star)
  | inr other ↦ elim (Bool-cases (is_dash c)) [
    | inl dash ↦
        let (x, y, eq, ends, star) = host_from-Rest after_dash s (rw (other, dash) at h) in
        (c ∷ x, y, ap (λ (t : String). c ∷ t) eq, inr (dash_with c x dash ends), star)
    | inr no_dash ↦ elim (Bool-cases (is_dot c)) [
      | inl dot ↦
          let (x, y, eq, label, star) = host_from-Rest at_start s (rw (other, no_dash, dot) at h) in
          let next : Star NextLabel (c ∷ (x ++ y)) =
            more (c ∷ "", x, refl, (c, refl, dot), label) star in
          (
            "",
            c ∷ s,
            refl,
            inl refl,
            subst (Star NextLabel) (ap (λ (t : String). c ∷ t) (sym eq)) next,
          )
      | inr no_dot ↦ let gone = (rw (other, no_dash, no_dot) at h) in cc
    ]
  ]
]
host_from-Rest after_dash (c ∷ s) h = elim (Bool-cases (is_alnum c)) [
  | inl alnum ↦
      let (x, y, eq, opt, star) = host_from-Rest in_label s (rw alnum at h) in
      (c ∷ x, y, ap (λ (t : String). c ∷ t) eq, end_with c x alnum opt, star)
  | inr other ↦ elim (Bool-cases (is_dash c)) [
    | inl dash ↦
        let (x, y, eq, ends, star) = host_from-Rest after_dash s (rw (other, dash) at h) in
        (c ∷ x, y, ap (λ (t : String). c ∷ t) eq, dash_with c x dash ends, star)
    | inr no_dash ↦ let gone = (rw (other, no_dash) at h) in cc
  ]
]

-- Within a label, at its characters and at its end.
data Inner : Place → Type 0 where
  letter : Inner in_label
  dashed : Inner after_dash

at_end :
    {q : Place} (inner : Inner q) (c : Char) (t : String)
    → is_alnum c ≡ true
    → host_from in_label t ≡ true
    → host_from q (c ∷ t) ≡ true
unfolding host_from
at_end letter c t alnum h = rw alnum h
at_end dashed c t alnum h = rw alnum h

at_dash :
    {q : Place} (inner : Inner q) (c : Char) (t : String)
    → is_alnum c ≡ false
    → is_dash c ≡ true
    → host_from after_dash t ≡ true
    → host_from q (c ∷ t) ≡ true
unfolding host_from
at_dash letter c t other dash h = rw (other, dash) h
at_dash dashed c t other dash h = rw (other, dash) h

label_end :
    {q : Place} (inner : Inner q) {u : String} (v t : String)
    → Star LabelChar u
    → Alnum v
    → host_from in_label t ≡ true
    → host_from q (u ++ (v ++ t)) ≡ true
label_end inner v t done (c, eq, alnum) h = rw eq (at_end inner c t alnum h)
label_end inner v t (more {a = a} {b = b} (c, eq, inside) rest) last h =
    rw eq (elim (Bool-cases (is_alnum c)) [
      | inl alnum ↦ at_end inner c (b ++ (v ++ t)) alnum (label_end letter v t rest last h)
      | inr other ↦
          at_dash inner c (b ++ (v ++ t)) other (ground (arith, inside))
            (label_end dashed v t rest last h)
    ])

Opt-end :
    (x t : String)
    → Opt LabelEnd x
    → host_from in_label t ≡ true
    → host_from in_label (x ++ t) ≡ true
Opt-end x t (inl empty) h = rw empty h
Opt-end x t (inr (u, v, eq, inner, last)) h =
    rw (eq, append_assoc u v t) (label_end letter v t inner last h)

Label-then :
    (x t : String) → Label x → host_from in_label t ≡ true → host_from at_start (x ++ t) ≡ true
unfolding host_from
Label-then x t (a, b, eq, (c, one, alnum), opt) h = rw (eq, one, alnum) (Opt-end b t opt h)

next_labels : {t : String} → Star NextLabel t → host_from in_label t ≡ true
unfolding host_from
next_labels done = refl
next_labels (more {b = b} (d, l, eq, (c, one, dot), label) rest) =
    let other : is_alnum c ≡ false = ground (arith, dot) in
    let no_dash : is_dash c ≡ false = ground (arith, dot) in
    rw (eq, one, other, no_dash, dot) (Label-then l b label (next_labels rest))

-- The matcher accepts exactly the texts that the regular expression of validateHostFlag describes.
pub host_from_language : (s : String) → (host_from at_start s ≡ true) ↔ HostName s
host_from_language s = (
  host_from-Rest at_start s,
  λ (x, y, eq, label, star). rw eq (Label-then x y label (next_labels star)),
)

-- validateHostFlag accepts exactly the hosts that are no IP address and that its regular expression
-- describes.
pub validate_host_flag_iff :
    (sys : System) (host : String)
    → (validate_host_flag sys host ≡ ok tt) ↔ ((sys.is_ip host ≡ false) × HostName host)
unfolding validate_host_flag
validate_host_flag_iff sys host = (
  λ h. (ground arith, (host_from_language host).0 (ground arith)),
  λ (no_ip, described). rw (no_ip, (host_from_language host).1 described) refl,
)
