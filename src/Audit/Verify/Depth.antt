-- ===== src/Audit/Verify/Depth.antt =====
-- The recursion of `verify` and its fuel.
use adgate.Prelude.{
  ℕ, suc, String, ◌≡◌, refl, ap, Bool, false, Option, none, some, arith, Option-cases, inl, inr,
  is_none,
}
use adgate.Audit.Record.{AuditRecord, attestation_of}
use adgate.Audit.Chain.{Platform, Extras, PublicKeyRing}
use adgate.Audit.Verify.{
  Loaded, not_object, object, VerifyContext, VerifyResponse, fields, nested_context, check_prior,
  check_supersedes_hash, check_supersedes, verify_step, verify_at, verify,
}

module _ (platform : Platform) where
  -- An attestation is refused as a superseded record, whatever its own verification says.
  check_prior-attestation :
      (r : AuditRecord) (hash : String) (prior : AuditRecord) (deep : Bool) (a b : VerifyResponse)
      → is_none (attestation_of prior).supersedes_hash ≡ false
      → check_prior platform r hash prior deep a ≡ check_prior platform r hash prior deep b
  unfolding check_prior
  check_prior-attestation r hash prior deep a b h = ground arith

  module _ (ring : PublicKeyRing) where
    -- A record that supersedes none is verified with no nested call.
    step_original :
        (r : AuditRecord) (extras : Extras) (ctx : VerifyContext)
        (n m : Loaded → VerifyContext → VerifyResponse)
        → (attestation_of r).supersedes_hash ≡ none
        → verify_step platform ring n (object r extras) ctx
          ≡ verify_step platform ring m (object r extras) ctx
    unfolding verify_step check_supersedes
    step_original r extras ctx n m e = rw (e, check_supersedes_hash)

    check_object :
        (r : AuditRecord) (hash : String) (prior : AuditRecord) (extras : Extras)
        (ctx : VerifyContext) (deep : Bool) (n m : Loaded → VerifyContext → VerifyResponse)
        → check_prior platform r hash prior deep
            (verify_step platform ring n (object prior extras) ctx)
          ≡ check_prior platform r hash prior deep
              (verify_step platform ring m (object prior extras) ctx)
    check_object r hash prior extras ctx deep n m =
        elim (Option-cases (attestation_of prior).supersedes_hash) [
          | inl original ↦
              ap (check_prior platform r hash prior deep)
                (step_original prior extras ctx n m original)
          | inr (h, attestation) ↦ check_prior-attestation r hash prior deep _ _ (rw attestation)
        ]

    check_hash :
        (r : AuditRecord) (ctx : VerifyContext) (n m : Loaded → VerifyContext → VerifyResponse)
        (hash : Option String) (loaded : Loaded)
        → (fields ctx).superseded_record ≡ loaded
        → check_supersedes_hash platform r ctx (verify_step platform ring n) hash
          ≡ check_supersedes_hash platform r ctx (verify_step platform ring m) hash
    unfolding check_supersedes_hash
    check_hash r ctx n m none loaded e = refl
    check_hash r ctx n m (some hash) not_object e = rw (e, check_supersedes_hash)
    check_hash r ctx n m (some hash) (object prior extras) e =
        rw (e, check_supersedes_hash)
          (check_object r hash prior extras (nested_context r ctx) (fields ctx).verify_superseded n
            m)

    -- What `verify` calls for a superseded record may itself be `verify_step` of anything.
    step_of_step :
        (loaded : Loaded) (ctx : VerifyContext) (n m : Loaded → VerifyContext → VerifyResponse)
        → verify_step platform ring (verify_step platform ring n) loaded ctx
          ≡ verify_step platform ring (verify_step platform ring m) loaded ctx
    unfolding verify_step check_supersedes
    step_of_step not_object ctx n m = refl
    step_of_step (object r extras) ctx n m =
        rw (check_hash r ctx n m (attestation_of r).supersedes_hash _ refl)

    -- `verify` answers as the source's recursion does: it satisfies the equation of `verifyWith`,
    -- which calls itself on the superseded record.
    pub verify_lem :
        (loaded : Loaded) (ctx : VerifyContext)
        → verify platform ring loaded ctx
          ≡ verify_step platform ring (verify platform ring) loaded ctx
    unfolding verify verify_at
    verify_lem loaded ctx =
        step_of_step loaded ctx (verify_at platform ring 0)
          (verify_step platform ring (verify_at platform ring 0))

    -- More fuel than `verify` has changes none of its answers.
    pub verify_at-enough :
        (fuel : ℕ) (loaded : Loaded) (ctx : VerifyContext)
        → verify_at platform ring (suc (suc fuel)) loaded ctx ≡ verify platform ring loaded ctx
    unfolding verify verify_at
    verify_at-enough fuel loaded ctx =
        step_of_step loaded ctx (verify_at platform ring fuel) (verify_at platform ring 0)
