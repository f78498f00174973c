-- ===== src/Release/Reading.antt =====
-- How `parseSemver` (internal/release/release.go) reads a version.
use hoptrail.Common.{
  ℕ, ◌≡◌, ◌↔◌, refl, sym, ap, ap₂, ◌∙◌, inl, inr, Bool, true, not, ◌&&◌, Option, none, some,
  some-inj, List, [], ◌∷◌, ◌++◌, ◌==◌, ==_iff, arith, Bool-cases,
}
use hoptrail.Common.Text.{Text, codes, trim_prefix}
use hoptrail.Release.{
  Semver, trim_space, before_dash, split_dots, part_value, semver_of, three_parts, parse_semver,
}

-- The character does not occur in the text.
unfoldable pub lacks : ℕ → Text → Bool
lacks d [] = true
lacks d (c ∷ s) = not (c == d) && lacks d s

-- The text is empty or begins with a dash.
abbrev pub is_suffix : Text → Bool
is_suffix [] = true
is_suffix (c ∷ s) = c == b'-'

-- A version reads as three numbers: without spaces around it and without a leading "v", it is three
-- parts with dots between them, each a number of an int that is not negative, and then nothing or a suffix that begins with a dash.
abbrev pub Reads : Text → Semver → Type 0
Reads s v =
    (p q r suffix : Text) × (trim_prefix (trim_space s) (codes "v")
      ≡ (p ++ b'.' ∷ (q ++ b'.' ∷ r)) ++ suffix)
    × (is_suffix suffix ≡ true)
    × (lacks b'-' (p ++ b'.' ∷ (q ++ b'.' ∷ r)) ≡ true)
    × (lacks b'.' p ≡ true)
    × (lacks b'.' q ≡ true)
    × (lacks b'.' r ≡ true)
    × (part_value p ≡ some v.major)
    × (part_value q ≡ some v.minor)
    × (part_value r ≡ some v.patch)

before_dash_cut : (s : Text) → (rest : Text) × (s ≡ before_dash s ++ rest) × (is_suffix rest ≡ true)
unfolding before_dash
before_dash_cut [] = ([], refl, refl)
before_dash_cut (c ∷ s) = elim (Bool-cases (c == b'-')) [
  | inl e ↦ rw e (c ∷ s, refl, e)
  | inr e ↦ let (rest, p, q) = before_dash_cut s in rw e (rest, ap (λ t. c ∷ t) p, q)
]

lacks-before_dash : (s : Text) → lacks b'-' (before_dash s) ≡ true
unfolding before_dash lacks
lacks-before_dash [] = refl
lacks-before_dash (c ∷ s) = ground (arith, lacks-before_dash s)

before_dash-append :
    (t rest : Text) → lacks b'-' t ≡ true → is_suffix rest ≡ true → before_dash (t ++ rest) ≡ t
unfolding before_dash lacks
before_dash-append [] [] h k = refl
before_dash-append [] (c ∷ s) h k = rw k refl
before_dash-append (c ∷ t) rest h k = ground (arith, before_dash-append t rest)

split_dots_plain : (p : Text) → lacks b'.' p ≡ true → split_dots p ≡ (p, [])
unfolding split_dots lacks
split_dots_plain [] h = refl
split_dots_plain (c ∷ p) h = ground (arith, split_dots_plain p)

split_dots-append :
    (p t : Text)
    → lacks b'.' p ≡ true
    → split_dots (p ++ b'.' ∷ t) ≡ (p, (split_dots t).0 ∷ (split_dots t).1)
unfolding split_dots lacks
split_dots-append [] t h = refl
split_dots-append (c ∷ p) t h = ground (arith, split_dots-append p t)

-- The parts with dots between them.
unfoldable join_dots : Text → List Text → Text
join_dots p [] = p
join_dots p (q ∷ qs) = p ++ b'.' ∷ join_dots q qs

unfoldable all_plain : List Text → Bool
all_plain [] = true
all_plain (p ∷ ps) = lacks b'.' p && all_plain ps

join_dots-cons : (c : ℕ) (p : Text) (ps : List Text) → join_dots (c ∷ p) ps ≡ c ∷ join_dots p ps
unfolding join_dots
join_dots-cons c p [] = refl
join_dots-cons c p (q ∷ qs) = refl

join_dots-split_dots : (s : Text) → join_dots (split_dots s).0 (split_dots s).1 ≡ s
unfolding split_dots join_dots
join_dots-split_dots [] = refl
join_dots-split_dots (c ∷ s) = elim (Bool-cases (c == b'.')) [
  | inl e ↦ rw e (ap₂ (λ d t. d ∷ t) (sym ((==_iff c b'.').0 e)) (join_dots-split_dots s))
  | inr e ↦ rw e (
      join_dots-cons c (split_dots s).0 (split_dots s).1 ∙ ap (λ t. c ∷ t) (join_dots-split_dots s))
]

split_dots-all_plain : (s : Text) → all_plain ((split_dots s).0 ∷ (split_dots s).1) ≡ true
unfolding split_dots all_plain lacks
split_dots-all_plain [] = refl
split_dots-all_plain (c ∷ s) = ground (arith, split_dots-all_plain s)

semver_of_iff :
    (a b c : Option ℕ) (v : Semver)
    → (semver_of a b c ≡ some v) ↔ ((a ≡ some v.major) × (b ≡ some v.minor) × (c ≡ some v.patch))
semver_of_iff (some a) (some b) (some c) v = (
  (λ h.
      let e = some-inj h in
      (ap (λ w. some w.major) e, ap (λ w. some w.minor) e, ap (λ w. some w.patch) e)),
  (λ (p, q, r). cc),
)
semver_of_iff (some a) (some b) none v = ((λ h. cc), (λ (p, q, r). cc))
semver_of_iff (some a) none c v = ((λ h. cc), (λ (p, q, r). cc))
semver_of_iff none b c v = ((λ h. cc), (λ (p, q, r). cc))

-- Three plain parts that are numbers.
abbrev Parts : Text × List Text → Semver → Type 0
Parts x v =
    (p q r : Text) × (x ≡ (p, q ∷ r ∷ []))
    × (part_value p ≡ some v.major)
    × (part_value q ≡ some v.minor)
    × (part_value r ≡ some v.patch)

three_parts_inv : (x : Text × List Text) (v : Semver) → three_parts x ≡ some v → Parts x v
three_parts_inv (p, []) v h = cc
three_parts_inv (p, q ∷ []) v h = cc
three_parts_inv (p, q ∷ r ∷ []) v h =
    let (a, b, c) = (semver_of_iff (part_value p) (part_value q) (part_value r) v).0 h in
    (p, q, r, refl, a, b, c)
three_parts_inv (p, q ∷ r ∷ s ∷ more) v h = cc

parse_complete : (s : Text) (v : Semver) → Reads s v → parse_semver s ≡ some v
unfolding parse_semver
parse_complete s v (p, q, r, suffix, e, k, d, lp, lq, lr, a, b, c) =
    ap (λ t. three_parts (split_dots (before_dash t))) e
    ∙ ap (λ t. three_parts (split_dots t))
        (before_dash-append (p ++ b'.' ∷ (q ++ b'.' ∷ r)) suffix d k)
    ∙ ap three_parts (
        split_dots-append p (q ++ b'.' ∷ r) lp
        ∙ ap (λ x. (p, x.0 ∷ x.1))
            (split_dots-append q r lq ∙ ap (λ x. (q, x.0 ∷ x.1)) (split_dots_plain r lr)))
    ∙ (semver_of_iff (part_value p) (part_value q) (part_value r) v).1 (a, b, c)

three_plain :
    (p q r : Text)
    → all_plain (p ∷ q ∷ r ∷ []) ≡ true
    → (lacks b'.' p ≡ true) × (lacks b'.' q ≡ true) × (lacks b'.' r ≡ true)
unfolding all_plain
three_plain p q r h = ground arith

-- `parseSemver` succeeds exactly on the versions that read as three numbers, with these numbers.
pub parse_semver_iff : (s : Text) (v : Semver) → (parse_semver s ≡ some v) ↔ Reads s v
unfolding parse_semver join_dots
parse_semver_iff s v = (
  λ h.
      let t = trim_prefix (trim_space s) (codes "v") in
      let (rest, e, k) = before_dash_cut t in
      let (p, q, r, x, a, b, c) = three_parts_inv (split_dots (before_dash t)) v h in
      let j : p ++ b'.' ∷ (q ++ b'.' ∷ r) ≡ before_dash t =
        sym (ap (λ y. join_dots y.0 y.1) x) ∙ join_dots-split_dots (before_dash t) in
      let (lp, lq, lr) =
        three_plain p q r
          (sym (ap (λ y. all_plain (y.0 ∷ y.1)) x) ∙ split_dots-all_plain (before_dash t)) in
      (
        p,
        q,
        r,
        rest,
        e ∙ ap (λ y. y ++ rest) (sym j),
        k,
        ap (lacks b'-') j ∙ lacks-before_dash t,
        lp,
        lq,
        lr,
        a,
        b,
        c,
      ),
  parse_complete s v,
)
