-- ===== src/Ssh/Signing.antt =====
-- src/ssh.rs: the keys that `authenticate` signs with.
use cargo_remote.Prelude.{
  ◌≡◌, refl, sym, ap, ◌∙◌, List, [], ◌∷◌, ◌++◌, Text, Bool, true, false, Option, none, some, All,
  All-append, unwrap_or, inl, inr, ◌⊎◌, ◌↔◌,
}
use cargo_remote.Ssh.Auth.{
  Key, rsa, Identity, usable, passed_over, auth_failed, AuthResult, authenticated, refused, Trying,
  rsa_allowed, try_one, settle, try_identities, authenticate,
}

module _ (takes : Key → Option Text → Bool) (rsa_hash : Option Text) where
  -- None of the keys is an RSA key that would be used with SHA-1.
  unfoldable pub NoSha1 : List Key → Type 0
  NoSha1 keys = All (λ k. k.algorithm ≡ rsa → rsa_hash ≡ none → ⊥) keys

  -- The server takes one of the keys.
  unfoldable pub OneTaken : List Key → Type 0
  OneTaken [] = ⊥
  OneTaken (alg ∷ algs) = (takes alg rsa_hash ≡ true) ⊎ OneTaken algs

  OneTaken-append :
      (algs more : List Key) → OneTaken (algs ++ more) ↔ (OneTaken algs ⊎ OneTaken more)
  unfolding OneTaken
  OneTaken-append [] more = (λ h. inr h, λ h. elim h [ inl u ↦ absurd u | inr k ↦ k ])
  OneTaken-append (alg ∷ algs) more =
      let (forth, back) = OneTaken-append algs more in
      (
        λ h. elim h [
          | inl t ↦ inl (inl t)
          | inr k ↦ elim (forth k) [ inl a ↦ inl (inr a) | inr m ↦ inr m ]
        ],
        λ h. elim h [
          | inl (inl t) ↦ inl t
          | inl (inr a) ↦ inr (back (inl a))
          | inr m ↦ inr (back (inr m))
        ],
      )

  -- What holds of a loop's trying.
  record IsSound (t : Trying) : Type 0 where
    policy : NoSha1 t.signed_with
    success : t.result ≡ some authenticated → OneTaken t.signed_with
    taken : OneTaken t.signed_with → t.result ≡ some authenticated

  allowed_key :
      (key : Key)
      → rsa_allowed key.algorithm rsa_hash ≡ true
      → key.algorithm ≡ rsa
      → rsa_hash ≡ none
      → ⊥
  unfolding rsa_allowed
  allowed_key key p a n =
      let q : rsa_allowed rsa none ≡ true =
        ap (λ x. rsa_allowed x none) (sym a) ∙ ap (rsa_allowed key.algorithm) (sym n) ∙ p in
      cc

  try_one-IsSound :
      (alg : Key) (allowed takes_it : Bool) (rest : Trying)
      → rsa_allowed alg.algorithm rsa_hash ≡ allowed
      → takes alg rsa_hash ≡ takes_it
      → IsSound rest
      → IsSound (try_one alg allowed takes_it rest)
  unfolding try_one NoSha1 OneTaken
  try_one-IsSound alg false t rest p e s = record {
    policy = tt;
    success = λ k. cc;
    taken = λ k. absurd k;
  }
  try_one-IsSound alg true true rest p e s = record {
    policy = (allowed_key alg p, tt);
    success = λ k. inl e;
    taken = λ k. refl;
  }
  try_one-IsSound alg true false rest p e s = record {
    policy = (allowed_key alg p, s.policy);
    success = λ k. inr (s.success k);
    taken = λ k. elim k [ inl u ↦ cc | inr m ↦ s.taken m ];
  }

  try_identities-IsSound : (ids : List Identity) → IsSound (try_identities takes rsa_hash ids)
  unfolding try_identities NoSha1 OneTaken
  try_identities-IsSound [] = record { policy = tt; success = λ k. cc; taken = λ k. absurd k }
  try_identities-IsSound (passed_over ∷ ids) = try_identities-IsSound ids
  try_identities-IsSound (usable alg ∷ ids) =
      try_one-IsSound alg (rsa_allowed alg.algorithm rsa_hash) (takes alg rsa_hash)
        (try_identities takes rsa_hash ids) refl refl (try_identities-IsSound ids)

  succeeded :
      (o : Option AuthResult)
      → unwrap_or o (refused auth_failed) ≡ authenticated
      → o ≡ some authenticated
  succeeded none h = cc
  succeeded (some r) h = cc

  settled :
      (first second : Trying) (o : Option AuthResult)
      → first.result ≡ o
      → IsSound first
      → IsSound second
      → NoSha1 (settle o first.signed_with second).0
        × (((settle o first.signed_with second).1 ≡ authenticated)
            ↔ OneTaken (settle o first.signed_with second).0)
  unfolding settle NoSha1
  settled first second (some r) e f g =
      (f.policy, (λ k. f.success (cc), λ k. let w = f.taken k in cc))
  settled first second none e f g = (
    All-append (λ k. k.algorithm ≡ rsa → rsa_hash ≡ none → ⊥) first.signed_with second.signed_with
        f.policy g.policy,
    (
      λ k.
          (OneTaken-append first.signed_with second.signed_with).1
            (inr (g.success (succeeded second.result k))),
      λ k. elim ((OneTaken-append first.signed_with second.signed_with).0 k) [
        | inl a ↦ let w = f.taken a in cc
        | inr m ↦ let w = g.taken m in rw w
      ],
    ),
  )

  -- Whatever the server answers, key by key, and with whatever keys: without an RSA hash of the
  -- server's no RSA key is signed with, which would be with SHA-1; and `authenticate` succeeds
  -- exactly when the server takes one of the keys that it signs with.
  pub authenticate-NoSha1 :
      (agent files : List Identity)
      → NoSha1 (authenticate takes rsa_hash agent files).0
        × (((authenticate takes rsa_hash agent files).1 ≡ authenticated)
            ↔ OneTaken (authenticate takes rsa_hash agent files).0)
  unfolding authenticate
  authenticate-NoSha1 agent files =
      settled (try_identities takes rsa_hash agent) (try_identities takes rsa_hash files) _ refl
        (try_identities-IsSound agent) (try_identities-IsSound files)
