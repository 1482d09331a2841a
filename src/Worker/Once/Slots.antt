-- ===== src/Worker/Once/Slots.antt =====
-- Each idempotency key has one job at most in the worker service of gateway/workers/service.py.
use mcp_gateway.Base.{ℕ, zero, suc, ◌+◌, ◌≤◌, String, ◌≡◌, refl, none, some, arith}
use mcp_gateway.Base.{
  List, [], ◌∷◌, ◌++◌, ◌==◌, string_eq, nat_eq, is_some, if◌then◌else◌, Option-cases, Bool-cases,
  inl, inr,
}
use mcp_gateway.Base.Dict.{Dict, lookup, erase, has_key, lookup-insert, lookup-erase}
use mcp_gateway.Worker.Jobs.{
  WorkerJob, Entry, WorkerService, Outcome, resolve, mark_uncertain, reads_only, mark_mutation,
}
use mcp_gateway.Worker.Service.{pick, erase_all, enqueue, is_full}
use mcp_gateway.Worker.Once.{one_if}

-- How many of the entries have the key.
unfoldable pub count_key : String → List Entry → ℕ
count_key key [] = 0
count_key key ((job, f) ∷ es) =
    let rest = count_key key es in one_if (key == job.idempotency_key) + rest

pub count_key-append :
    (key : String) (xs ys : List Entry)
    → count_key key (xs ++ ys) ≡ count_key key xs + count_key key ys
unfolding count_key
count_key-append key [] ys = omega arith
count_key-append key (x ∷ xs) ys = omega (arith, count_key-append key xs ys)

-- A key with a job in flight and no result has room for one entry.
abbrev pub room : String → WorkerService → ℕ
room key s =
    if has_key key s.inflight then (if has_key key s.idempotent_results then 0 else 1) else 0

abbrev pub pending : String → WorkerService → ℕ
pending key s = count_key key s.queue + count_key key s.executing + count_key key s.stopping

-- No key has more entries than room.
abbrev pub HasRoom : WorkerService → Type 0
HasRoom s = (key : String) → pending key s ≤ room key s

pub count_key-pick :
    (key : String) (n : ℕ) (es rest : List Entry) (job : WorkerJob) (f : ℕ)
    → pick n es ≡ some ((job, f), rest)
    → count_key key es ≡ one_if (key == job.idempotency_key) + count_key key rest
unfolding pick count_key
count_key-pick key n [] rest job f h = absurd (cc h)
count_key-pick key zero (e ∷ es) rest job f h = ground (arith, h)
count_key-pick key (suc n) (e ∷ es) rest job f h = elim (Option-cases (pick n es)) [
  | inl x ↦ absurd (ground (arith, x, h))
  | inr (((j, g), r), x) ↦ ground (arith, x, h, count_key-pick key n es r j g x)
]

pub has_key-erase_all :
    (key : String) (es : List Entry) (d : Dict String Entry)
    → count_key key es ≡ 0
    → lookup key (erase_all es d) ≡ lookup key d
unfolding erase_all count_key
has_key-erase_all key [] d h = refl
has_key-erase_all key ((job, f) ∷ es) d h = ground (
  arith,
  h,
  lookup-erase key job.idempotency_key d,
  has_key-erase_all key es (erase job.idempotency_key d),
)

abbrev pub done : String → WorkerService → ℕ
done key s = if has_key key s.idempotent_results then 1 else 0

-- Two services with the same jobs and results.
abbrev pub HasSameJobs : WorkerService → WorkerService → Type 0
HasSameJobs s t =
    (key : String)
    → (pending key t ≡ pending key s) × (room key t ≡ room key s) × (done key t ≡ done key s)

pub resolve-HasSameJobs : (f : ℕ) (o : Outcome) (s : WorkerService) → HasSameJobs s (resolve f o s)
unfolding resolve
resolve-HasSameJobs f o s key = elim (Bool-cases (is_some (lookup f s.futures))) [
  | inl e ↦ rw e (refl, refl, refl)
  | inr e ↦ rw e (refl, refl, refl)
]

pub mark_mutation-HasSameJobs :
    (now : ℕ) (job : WorkerJob) (detail : String) (s : WorkerService)
    → HasSameJobs s (mark_mutation now job detail s)
unfolding mark_uncertain
mark_mutation-HasSameJobs now job detail s key = elim (Bool-cases (reads_only job)) [
  | inl e ↦ rw e (refl, refl, refl)
  | inr e ↦ rw e (refl, refl, refl)
]

-- What a step does to the keys: no success takes place under a key that has a result already, and
-- the room is kept.
pub record Advances (s t : WorkerService) (succeeded : String → ℕ) : Type 0 where
  pub kept : HasRoom t
  pub counted : (key : String) → succeeded key + done key s ≤ done key t

pub same-Advances : (s t : WorkerService) → HasSameJobs s t → HasRoom s → Advances s t (λ key. 0)
same-Advances s t same h = record {
  kept = λ key. omega (arith, h key, (same key).0, (same key).1);
  counted = λ key. omega (arith, (same key).2);
}

pub enqueue-Advances :
    (maxsize now : ℕ) (job : WorkerJob) (s : WorkerService)
    → lookup job.idempotency_key s.inflight ≡ none
    → lookup job.idempotency_key s.idempotent_results ≡ none
    → HasRoom s
    → Advances s (enqueue maxsize now job s).1 (λ key. 0)
unfolding enqueue count_key
enqueue-Advances maxsize now job s free fresh h = elim (Bool-cases (is_full maxsize s.queue)) [
  | inl e ↦ rw e (record { kept = h; counted = λ key. omega arith })
  | inr e ↦ rw e (record {
    kept = λ key. ground (
      arith,
      h key,
      free,
      fresh,
      count_key-append key s.queue ((job, s.next_future) ∷ []),
      lookup-insert key job.idempotency_key (job, s.next_future) s.inflight,
    );
    counted = λ key. omega arith;
  })
]
