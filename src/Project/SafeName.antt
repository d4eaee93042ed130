-- ===== src/Project/SafeName.antt =====
-- src/project.rs: the names that `remote_safe_name` gives.
-- BLAKE2b is not part of the repository: of `digest` the proofs use that it is made of bytes
-- and that it has the four that the tag is taken from.
use mathlib.Core.List.{flat_map}
use cargo_remote.Prelude.{
  all-append, ℕ, zero, suc, ◌*◌, ◌/◌, ◌%◌, ◌≤◌, ◌<◌, max, ◌≡◌, refl, [], ◌∷◌, ◌++◌, map, Text,
  Bytes, codes, Bool, true, if◌then◌else◌, all, any, is_empty, is_ascii_alphanumeric, take, length,
  All, arith, Bool-cases, inl, inr, length-append, length-take, ◌⊎◌,
}
use cargo_remote.Project.{
  is_safe, hex_digit, hex_byte, is_trimmed, trim_start, trim_end, short_tag, sanitized,
  remote_safe_name,
}

-- The length of a list and the values of a list, through the steps of `sanitized`.
any-append : (test : ℕ → Bool) (s t : Text) → any test t ≡ true → any test (s ++ t) ≡ true
any-append test [] t q = q
any-append test (c ∷ s) t q = ground (arith, any-append test s t)

all-take : (test : ℕ → Bool) (n : ℕ) (s : Text) → all test s ≡ true → all test (take n s) ≡ true
all-take test zero s h = refl
all-take test (suc n) [] h = refl
all-take test (suc n) (c ∷ s) h = ground (arith, all-take test n s)

all-trim_start :
    (test p : ℕ → Bool) (s : Text) → all test s ≡ true → all test (trim_start p s) ≡ true
unfolding trim_start
all-trim_start test p [] h = refl
all-trim_start test p (c ∷ s) h = ground (arith, all-trim_start test p s)

all-trim_end : (test p : ℕ → Bool) (s : Text) → all test s ≡ true → all test (trim_end p s) ≡ true
unfolding trim_end
all-trim_end test p [] h = refl
all-trim_end test p (c ∷ s) h = ground (arith, all-trim_end test p s)

length-trim_start : (p : ℕ → Bool) (s : Text) → length (trim_start p s) ≤ length s
unfolding trim_start
length-trim_start p [] = omega arith
length-trim_start p (c ∷ s) = ground (arith, length-trim_start p s)

length-trim_end : (p : ℕ → Bool) (s : Text) → length (trim_end p s) ≤ length s
unfolding trim_end
length-trim_end p [] = omega arith
length-trim_end p (c ∷ s) = ground (arith, length-trim_end p s)

all-map-safe : (s : Text) → all is_safe (map (λ c. if is_safe c then c else b'_') s) ≡ true
all-map-safe [] = refl
all-map-safe (c ∷ s) = elim (Bool-cases (is_safe c)) [
  | inl e ↦ rw (e, e) (all-map-safe s)
  | inr e ↦ rw e (let u : is_safe b'_' ≡ true = unfold is_safe in refl in rw u (all-map-safe s))
]

alphanumeric-safe : (c : ℕ) → is_ascii_alphanumeric c ≡ true → is_safe c ≡ true
unfolding is_safe
alphanumeric-safe c h = rw h

hex_digit-alphanumeric : (n : ℕ) → n < 16 → is_ascii_alphanumeric (hex_digit n) ≡ true
unfolding hex_digit
hex_digit-alphanumeric n h = ground arith

tag_alphanumeric :
    (bs : Bytes) → All (λ b. b < 256) bs → all is_ascii_alphanumeric (flat_map hex_byte bs) ≡ true
unfolding hex_byte flat_map
tag_alphanumeric [] h = refl
tag_alphanumeric (b ∷ bs) (l, h) =
    rw
      (hex_digit-alphanumeric (b / 16) (omega arith), hex_digit-alphanumeric (b % 16) (omega arith))
      (tag_alphanumeric bs h)

all-alphanumeric-safe : (s : Text) → all is_ascii_alphanumeric s ≡ true → all is_safe s ≡ true
all-alphanumeric-safe [] h = refl
all-alphanumeric-safe (c ∷ s) h = ground (arith, alphanumeric-safe c, all-alphanumeric-safe s)

length-tag : (bs : Bytes) → length (flat_map hex_byte bs) ≡ 2 * length bs
unfolding hex_byte flat_map
length-tag [] = refl
length-tag (b ∷ bs) = omega (arith, length-tag bs)

any-of_all : (test : ℕ → Bool) (s : Text) → 0 < length s → all test s ≡ true → any test s ≡ true
any-of_all test [] l h = absurd (omega arith)
any-of_all test (c ∷ s) l h = ground arith

All-take : (n : ℕ) (bs : Bytes) → All (λ b. b < 256) bs → All (λ b. b < 256) (take n bs)
All-take zero bs h = tt
All-take (suc n) [] h = tt
All-take (suc n) (b ∷ bs) (l, h) = (l, All-take n bs h)

-- A name made of `[A-Za-z0-9._-]` only, with a letter or a digit in it: it is one path
-- component, is not `.` or `..`, and the shell gives none of its characters a meaning.
unfoldable pub IsSafeName : Text → Type 0
IsSafeName s = (all is_safe s ≡ true) × (any is_ascii_alphanumeric s ≡ true)

module _ (digest : Text → Bytes) (digest_bytes : (s : Text) → All (λ b. b < 256) (digest s))
    (digest_length : (s : Text) → 4 ≤ length (digest s)) where
  tag-alphanumeric : (s : Text) → all is_ascii_alphanumeric (short_tag digest s) ≡ true
  unfolding short_tag
  tag-alphanumeric s = tag_alphanumeric (take 4 (digest s)) (All-take 4 (digest s) (digest_bytes s))

  length-short_tag : (s : Text) → length (short_tag digest s) ≡ 8
  unfolding short_tag
  length-short_tag s =
      omega (arith, length-tag (take 4 (digest s)), length-take 4 (digest s), digest_length s)

  tagged :
      (base raw : Text) → all is_safe base ≡ true → IsSafeName (base ++ b'-' ∷ short_tag digest raw)
  unfolding IsSafeName
  tagged base raw h =
      let tag = short_tag digest raw in
      let letters = tag-alphanumeric raw in
      let dash : is_safe b'-' ≡ true = unfold is_safe in refl in
      let some_letter =
        any-of_all is_ascii_alphanumeric tag (omega (arith, length-short_tag raw)) letters in
      (
        all-append is_safe base (b'-' ∷ tag) h (rw dash (all-alphanumeric-safe tag letters)),
        any-append is_ascii_alphanumeric base (b'-' ∷ tag) some_letter,
      )

  sanitized-IsSafeName : (raw : Text) → IsSafeName (sanitized digest raw)
  unfolding sanitized
  sanitized-IsSafeName raw =
      let mapped = take 40 (map (λ c. if is_safe c then c else b'_') raw) in
      let trimmed = trim_end is_trimmed (trim_start is_trimmed mapped) in
      let safe : all is_safe trimmed ≡ true =
        all-trim_end is_safe is_trimmed (trim_start is_trimmed mapped) (
          all-trim_start is_safe is_trimmed mapped (
            all-take is_safe 40 (map (λ c. if is_safe c then c else b'_') raw)
              (all-map-safe raw))) in
      elim (Bool-cases (is_empty trimmed)) [
        | inl e ↦ rw e (tagged (codes "project") raw (unfold is_safe in refl))
        | inr e ↦ rw e (tagged trimmed raw safe)
      ]

  length-sanitized : (raw : Text) → length (sanitized digest raw) ≤ 49
  unfolding sanitized
  length-sanitized raw =
      let mapped = take 40 (map (λ c. if is_safe c then c else b'_') raw) in
      let start = trim_start is_trimmed mapped in
      let trimmed = trim_end is_trimmed start in
      let base = if is_empty trimmed then codes "project" else trimmed in
      let short : length base ≤ 40 = elim (Bool-cases (is_empty trimmed)) [
        | inl e ↦ rw e (omega arith)
        | inr e ↦ rw e (
            omega (
              arith,
              length-trim_end is_trimmed start,
              length-trim_start is_trimmed mapped,
              length-take 40 (map (λ c. if is_safe c then c else b'_') raw),
            ))
      ] in
      omega (arith, length-append base (b'-' ∷ short_tag digest raw), length-short_tag raw)

  safe_name_fixed : (s : Text) → IsSafeName s → remote_safe_name digest s ≡ s
  unfolding IsSafeName remote_safe_name
  safe_name_fixed [] (p, q) = cc
  safe_name_fixed (c ∷ s) (p, q) = rw (p, q)

  -- What `remote_safe_name` does with a name, by whether it is safe as it stands.
  passes_or_sanitized :
      (raw : Text)
      → (IsSafeName raw × (remote_safe_name digest raw ≡ raw))
        ⊎ (remote_safe_name digest raw ≡ sanitized digest raw)
  unfolding IsSafeName remote_safe_name
  passes_or_sanitized [] = inr refl
  passes_or_sanitized (c ∷ s) = elim (Bool-cases (all is_safe (c ∷ s))) [
    | inl p ↦ elim (Bool-cases (any is_ascii_alphanumeric (c ∷ s))) [
      | inl q ↦ inl ((p, q), rw (p, q))
      | inr q ↦ inr (rw (p, q))
    ]
    | inr p ↦ inr (rw p)
  ]

  -- For every directory name `remote_safe_name` gives a safe name, no longer than 49 characters
  -- unless the name was safe as it stands; and a name that it has given is left as it is.
  -- The digest is assumed to be made of bytes, four of them at least.
  pub remote_safe_name-IsSafeName :
      (raw : Text)
      → IsSafeName (remote_safe_name digest raw)
        × (length (remote_safe_name digest raw) ≤ max 49 (length raw))
        × (remote_safe_name digest (remote_safe_name digest raw) ≡ remote_safe_name digest raw)
  remote_safe_name-IsSafeName raw = elim (passes_or_sanitized raw) [
    | inl (safe, e) ↦ rw (e, e) (safe, omega arith, refl)
    | inr e ↦
        let safe = sanitized-IsSafeName raw in
        rw e
          (safe, omega (arith, length-sanitized raw), safe_name_fixed (sanitized digest raw) safe)
  ]
