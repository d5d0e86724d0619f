-- ===== src/Executor/Stage/Complete.antt =====
-- What a stage (internal/executor/executor.go) that reports no error has done.
use dizzy.Prelude.{
  ℕ, zero, suc, ◌≤◌, ◌≡◌, refl, ap, true, Option, none, some, List, [], ◌∷◌, map, length, All, has,
  arith, if_both, take,
}
use dizzy.Churn.State.{Resource}
use dizzy.Executor.Retry.{Errors}
use dizzy.Executor.Retry.Outcome.{Ends, with_retry-Ends}
use dizzy.Executor.Stage.{
  Answer, made, refused, answer_err, answer_resource, Service, Pool, provision, conclude, slot_of,
  slots, first_err, or_else, start, run_stage, reached, handed_out,
}

ended :
    {errors : Errors} (fn cancelled : ℕ → Option errors.E) (k : ℕ) (o : Option errors.E)
    → Ends errors fn cancelled k o
    → o ≡ none
    → fn k ≡ none
ended fn cancelled k _ (Ends.succeeded f) h = f
ended fn cancelled k _ (Ends.refused e f g) h = cc
ended fn cancelled k _ (Ends.interrupted e c f g) h = cc

module _ (errors : Errors) {Request : Type 0} (service : Service Request errors.E) where
  -- The cloud gives every resource an id.
  abbrev pub Identified : Type 0
  Identified = (q : Request) (k : ℕ) (r : Resource) → service.create q k ≡ made r → has r.id ≡ true

  -- The pool stops short only where a worker failed or the run was cancelled.
  abbrev pub Fair : Pool errors.E → List Request → Type 0
  Fair pool qs =
      pool.after ≡ none
      → first_err errors service (slots errors service pool.handed_out qs) ≡ none
      → length qs ≤ pool.handed_out

  answer-has :
      (a : Answer errors.E)
      → ((r : Resource) → a ≡ made r → has r.id ≡ true)
      → answer_err a ≡ none
      → has (answer_resource a).id ≡ true
  answer-has (made r) f h = f r refl
  answer-has (refused e) f h = cc

  conclude-has :
      (q : Request) (calls : ℕ) (o : Option errors.E)
      → (o ≡ none → has (answer_resource (service.create q calls)).id ≡ true)
      → (conclude errors service q calls o).1 ≡ none
      → has (conclude errors service q calls o).0.id ≡ true
  conclude-has q calls (some e) f h = cc
  conclude-has q calls none f h =
      if_both (λ (x : Resource × Option errors.E). has x.0.id ≡ true) (service.is_ready q) (f refl)
        (f refl)

  -- A provisioned resource has an id.
  pub provision-has :
      Identified
      → (q : Request) → (provision errors service q).1 ≡ none
      → has (provision errors service q).0.id ≡ true
  unfolding provision
  provision-has identified q h =
      let fn : ℕ → Option errors.E = λ k. answer_err (service.create q k) in
      let (low, high, before, ends) = with_retry-Ends errors fn (service.cancelled q) in
      conclude-has q _ _
        (λ e. answer-has _ (identified q _) (ended fn (service.cancelled q) _ _ ends e)) h

  settled :
      (x : Resource × Option errors.E) (ss : List (Resource × Option errors.E))
      → first_err errors service (slot_of errors service x ∷ ss) ≡ none
      → ((slot_of errors service x).0 ≡ x.0) × (x.1 ≡ none) × (first_err errors service ss ≡ none)
  settled (r, none) ss h = (refl, refl, h)
  settled (r, some e) ss h = cc

  abbrev pub Provisioned : List Request → List Resource → Type 0
  Provisioned qs res =
      (res ≡ map (λ q. (provision errors service q).0) qs)
      × All (λ q. (provision errors service q).1 ≡ none) qs

  slots_complete :
      (n : ℕ) (qs : List Request)
      → length qs ≤ n
      → first_err errors service (slots errors service n qs) ≡ none
      → Provisioned qs (map (λ s. s.0) (slots errors service n qs)) × (take n qs ≡ qs)
  slots_complete zero [] le h = ((refl, tt), refl)
  slots_complete (suc n) [] le h = ((refl, tt), refl)
  slots_complete zero (q ∷ qs) le h = absurd (omega arith)
  slots_complete (suc n) (q ∷ qs) le h =
      let (same, fine, later) = settled (provision errors service q) _ h in
      let ((rest, fines), all) = slots_complete n qs (omega arith) later in
      ((cc, (fine, fines)), ap (λ ys. q ∷ ys) all)

  or_else-none :
      (a b : Option errors.E) → or_else errors service a b ≡ none → (a ≡ none) × (b ≡ none)
  or_else-none none b h = (refl, h)
  or_else-none (some e) b h = cc

  start_complete :
      (pool : Pool errors.E) (before : Option errors.E) (qs : List Request)
      → Fair pool qs
      → (start errors service pool before qs).1 ≡ none
      → Provisioned qs (start errors service pool before qs).0
        × (reached errors service before pool.handed_out qs ≡ qs)
  start_complete pool (some e) qs fair h = cc
  start_complete pool none qs fair h =
      let (_, later) = or_else-none _ _ h in
      let (after, first) = or_else-none _ _ later in
      slots_complete pool.handed_out qs (fair after first) first

  reached-nil : (before : Option errors.E) (n : ℕ) → reached errors service before n [] ≡ []
  reached-nil none zero = refl
  reached-nil none (suc n) = refl
  reached-nil (some e) n = refl

  -- A stage that reports no error has provisioned every item, in the items' order.
  pub run_stage_complete :
      (pool : Pool errors.E) (qs : List Request)
      → Fair pool qs
      → (run_stage errors service pool qs).1 ≡ none
      → Provisioned qs (run_stage errors service pool qs).0
        × (handed_out errors service pool qs ≡ qs)
  unfolding run_stage handed_out
  run_stage_complete pool [] fair h = ((refl, tt), reached-nil pool.before pool.handed_out)
  run_stage_complete pool (q ∷ qs) fair h = start_complete pool pool.before (q ∷ qs) fair h
