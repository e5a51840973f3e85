-- ===== src/Auth/Rotation.antt =====
-- backend/src/auth/auth.service.ts: the families of refresh tokens under `refresh`.
use runboard.Prelude.{
  ℕ, ◌≤◌, ◌≡◌, refl, ap, sym, ◌∙◌, ◌==◌, Bool, true, ◌&&◌, Option, some, String, List, [], ◌∷◌,
  ◌++◌, inl, inr, find, count, change, Bool-cases, ==_self, eq_of_==, arith, subst,
}
use runboard.Prelude.Keys.{Distinct, Distinct-change, count-change, find-key, some-inj}
use runboard.Prelude.Updates.{
  find-change, find-append, count-append, count-change-le, count-change-none, Distinct-append,
}
use runboard.Schema.{Uuid, Db, RefreshToken}
use runboard.Exec.{ok, err}
use runboard.Context.{RequestContext}
use runboard.Prisma.{Prisma}
use runboard.Auth.{
  Crypto, Draw, TokenPair, is_active, revoke, token_clash, stored_as, refresh, refresh_reuse,
}
use runboard.Auth.Outcome.{stored_at, Reused, Rotated, refresh_outcome, reused, revoked_one, issued}

abbrev pub active_in : Uuid → RefreshToken → Bool
active_in family_id t = t.family_id == family_id && is_active t

module _ (prisma : Prisma) (crypto : Crypto) (ctx : Option RequestContext) (draw : Draw)
    (token : String) (db : Db) where
  abbrev after_first : Db
  after_first = (refresh prisma crypto ctx draw token db).1

  found_revoked :
      (r : Rotated prisma crypto ctx draw token db)
      → stored_at prisma crypto ctx draw token after_first ≡ some (revoke draw.now r.stored)
  found_revoked r =
      ap (find (stored_as prisma crypto ctx draw token)) r.tokens
      ∙ find-append (stored_as prisma crypto ctx draw token)
          (revoked_one prisma crypto ctx draw r.stored db.refresh_tokens) _
          (revoke draw.now r.stored)
          (find-change (stored_as prisma crypto ctx draw token) (λ t. t.id == r.stored.id)
              (revoke draw.now) db.refresh_tokens (λ t. refl)
            ∙ rw r.found (rw (==_self r.stored.id) refl))

  -- A reuse leaves no token of the family in force.
  family_revoked :
      (r : Reused prisma crypto ctx draw token db) (stored : RefreshToken)
      → stored_at prisma crypto ctx draw token db ≡ some stored
      → count (active_in stored.family_id) after_first.refresh_tokens ≡ 0
  family_revoked r stored found =
      subst (λ (t : RefreshToken). count (active_in t.family_id) after_first.refresh_tokens ≡ 0)
        (some-inj (sym r.found ∙ found))
        (ap (count (active_in r.stored.family_id)) r.tokens
          ∙ count-change-none (active_in r.stored.family_id) (revoke draw.now) db.refresh_tokens
              (λ t. ground arith))

module _ (prisma : Prisma) (crypto : Crypto) (ctx : Option RequestContext) (draw : Draw)
    (token : String) (db : Db) where
  abbrev first_db : Db
  first_db = (refresh prisma crypto ctx draw token db).1

  -- Once a refresh token was exchanged for a new pair, the next refresh with it, whenever it comes,
  -- is answered AUTH_REFRESH_REUSE, and then no token of its family is in force, the new one
  -- included.
  pub refresh_once :
      (pair : TokenPair) (stored : RefreshToken) (later_ctx : Option RequestContext) (later : Draw)
      → (refresh prisma crypto ctx draw token db).0 ≡ ok pair
      → stored_at prisma crypto ctx draw token db ≡ some stored
      → ((refresh prisma crypto later_ctx later token first_db).0 ≡ err refresh_reuse)
        × (count
              (active_in stored.family_id)
              (refresh prisma crypto later_ctx later token first_db).1.refresh_tokens
            ≡ 0)
  refresh_once pair stored later_ctx later done found =
      elim (refresh_outcome prisma crypto ctx draw token db) [
        | inl (e, refused) ↦ cc
        | inr (inl r) ↦ let answer = r.answer in cc
        | inr (inr r) ↦
            let again =
              reused prisma crypto later_ctx later token first_db
                (found_revoked prisma crypto ctx draw token db r) refl in
            (
              again.answer,
              subst
                  (λ (t : RefreshToken).
                    count (active_in t.family_id)
                      (refresh prisma crypto later_ctx later token first_db).1.refresh_tokens
                    ≡ 0)
                  (some-inj (sym r.found ∙ found))
                  (family_revoked prisma crypto later_ctx later token first_db again
                    (revoke draw.now r.stored) (found_revoked prisma crypto ctx draw token db r)),
            )
      ]

-- The ids are distinct, and each family has at most one token in force.
pub record IsRotating (tokens : List RefreshToken) : Type 0 where
  pub ids : Distinct (λ (t : RefreshToken). t.id) tokens
  pub one_active : (family_id : Uuid) → count (active_in family_id) tokens ≤ 1

module _ (now : ℕ) (tokens : List RefreshToken) (h : IsRotating tokens) where
  -- Revoking tokens, whichever they are, keeps a family from having two.
  revoke-IsRotating : (q : RefreshToken → Bool) → IsRotating (change q (revoke now) tokens)
  revoke-IsRotating q = record {
    ids = Distinct-change (λ (t : RefreshToken). t.id) q (revoke now) tokens (λ t. refl) h.ids;
    one_active = λ f.
        let fewer = count-change-le (active_in f) q (revoke now) tokens (λ t. ground arith) in
        let one = h.one_active f in omega arith;
  }

  module _ (p : RefreshToken → Bool) (stored : RefreshToken) (found : find p tokens ≡ some stored)
      (active : is_active stored ≡ true) where
    -- The family of a token that is revoked has none left.
    none_left :
        count (active_in stored.family_id) (change (λ t. t.id == stored.id) (revoke now) tokens) ≡ 0
    none_left =
        let row =
          find-key (λ (t : RefreshToken). t.id) (λ t. t.id == stored.id) stored.id
            (λ t e. eq_of_== t.id stored.id e) p tokens stored h.ids found refl
            (==_self stored.id) in
        let counted =
          count-change (λ (t : RefreshToken). t.id) (λ t. t.id == stored.id) stored.id
            (λ t e. eq_of_== t.id stored.id e) (active_in stored.family_id) (revoke now) tokens
            stored h.ids row in
        let one = h.one_active stored.family_id in
        ground (arith, counted, one, active, ==_self stored.family_id)

module _ (prisma : Prisma) (crypto : Crypto) (ctx : Option RequestContext) (draw : Draw)
    (token : String) (db : Db) (h : IsRotating db.refresh_tokens) where
  one_left :
      (r : Rotated prisma crypto ctx draw token db)
      → IsRotating (revoked_one prisma crypto ctx draw r.stored db.refresh_tokens)
      → (f : Uuid)
      → count (active_in f) (
          revoked_one prisma crypto ctx draw r.stored db.refresh_tokens
          ++ issued prisma crypto ctx draw r.user r.stored ∷ [])
        ≤ 1
  one_left r kept f =
      let new = issued prisma crypto ctx draw r.user r.stored in
      let sum =
        count-append (active_in f) (revoked_one prisma crypto ctx draw r.stored db.refresh_tokens)
          (new ∷ []) in
      let none_ =
        none_left draw.now db.refresh_tokens h (stored_as prisma crypto ctx draw token) r.stored
          r.found r.active in
      elim (Bool-cases (r.stored.family_id == f)) [
        | inl same ↦
            let none_f =
              subst
                (λ g.
                  count (active_in g)
                    (revoked_one prisma crypto ctx draw r.stored db.refresh_tokens)
                  ≡ 0)
                (eq_of_== r.stored.family_id f same) none_ in
            ground (arith, sum, none_f)
        | inr other ↦ let one = kept.one_active f in ground (arith, sum, one, other)
      ]

  Rotated-IsRotating :
      (r : Rotated prisma crypto ctx draw token db)
      → IsRotating (
          revoked_one prisma crypto ctx draw r.stored db.refresh_tokens
          ++ issued prisma crypto ctx draw r.user r.stored ∷ [])
  Rotated-IsRotating r =
      let kept = revoke-IsRotating draw.now db.refresh_tokens h (λ t. t.id == r.stored.id) in
      record {
        ids =
            Distinct-append (λ (t : RefreshToken). t.id)
              (issued prisma crypto ctx draw r.user r.stored)
              (token_clash (issued prisma crypto ctx draw r.user r.stored))
              (λ t e. ground (arith, e, ==_self t.id))
              (revoked_one prisma crypto ctx draw r.stored db.refresh_tokens) r.fresh kept.ids;
        one_active = one_left r kept;
      }

  -- Whatever `refresh` answers, no two tokens of one family are in force afterwards.
  pub refresh-IsRotating : IsRotating (refresh prisma crypto ctx draw token db).1.refresh_tokens
  refresh-IsRotating = elim (refresh_outcome prisma crypto ctx draw token db) [
    | inl (e, refused) ↦ rw refused h
    | inr (inl r) ↦
        rw (r.tokens)
          (revoke-IsRotating draw.now db.refresh_tokens h (active_in r.stored.family_id))
    | inr (inr r) ↦ rw (r.tokens) (Rotated-IsRotating r)
  ]
