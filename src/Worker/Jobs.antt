-- ===== src/Worker/Jobs.antt =====
-- crates/zkie-runtime/src/worker.rs, WorkerJob::new: what its fields are.
use zk_ie.Common.{
  ◌≤◌, false, [], ◌∷◌, ◌++◌, some, ok, ◌≡◌, refl, sym, ap, ◌∙◌, arith, All, All-append, All-map_of,
  length, ltb, if◌then◌else◌, Ordering, >>=-eq-ok, ok-injective, Bool-cases, inl, inr,
}
use mathlib.Core.List.{append_assoc, append-nil}
use zk_ie.Common.Text.{
  cmp_codes, cmp_codes-eq, cmp_codes_refl, cmp_codes-gt, cmp_codes-lt, cmp_codes-lt_trans,
}
use zk_ie.Common.Chars.{Chars, chars_eq}
use zk_ie.Common.Chars.Laws.{chars_eq_iff}
use zk_ie.Worker.{
  WorkerJobKind, Fields, WorkerJob, insert_field, field, validate_token, validate_value,
  collect_fields, new_worker_job, max_fields,
}

-- `key` stands before every entry; the keys rise.
abbrev pub Below : Chars → Fields → Type 0
Below key m = All (λ e. cmp_codes key e.0 ≡ Ordering.lt) m

abbrev pub IsSorted : Fields → Type 0
IsSorted [] = Unit
IsSorted ((k, v) ∷ m) = Below k m × IsSorted m

-- An entry that the validation of names and values lets through.
abbrev pub IsEntry : Chars × Chars → Type 0
IsEntry e = (validate_token e.0 ≡ ok tt) × (validate_value e.1 ≡ ok tt)

Below-insert_field :
    (k key value : Chars) (m : Fields)
    → cmp_codes k key ≡ Ordering.lt
    → Below k m
    → Below k (insert_field key value m)
unfolding insert_field
Below-insert_field k key value [] h b = (h, tt)
Below-insert_field k key value ((j, w) ∷ m) h b = ground (arith, Below-insert_field k key value m)

Below-trans : (k j : Chars) (m : Fields) → cmp_codes k j ≡ Ordering.lt → Below j m → Below k m
Below-trans k j m h b =
    All-map_of (λ e. cmp_codes j e.0 ≡ Ordering.lt) (λ e. cmp_codes k e.0 ≡ Ordering.lt) m
      (λ e p. cmp_codes-lt_trans k j e.0 h p) b

insert_field-IsSorted :
    (key value : Chars) (m : Fields) → IsSorted m → IsSorted (insert_field key value m)
unfolding insert_field
insert_field-IsSorted key value [] s = (tt, tt)
insert_field-IsSorted key value ((j, w) ∷ m) s = ground (
  arith,
  insert_field-IsSorted key value m,
  Below-trans key j m,
  cmp_codes-gt key j,
  Below-insert_field j key value m,
)

insert_field-All :
    (P : Chars × Chars → Type 0) (key value : Chars) (m : Fields)
    → P (key, value)
    → All P m
    → ((k v w : Chars) → P (k, v) → P (key, w) → P (k, w))
    → All P (insert_field key value m)
unfolding insert_field
insert_field-All P key value [] p h f = (p, tt)
insert_field-All P key value ((j, w) ∷ m) p h f =
    ground (arith, insert_field-All P key value m p, f j w value)

-- The value of a key after an insertion.
pub field-insert_field :
    (key value : Chars) (m : Fields) (j : Chars)
    → field j (insert_field key value m) ≡ (if chars_eq key j then some value else field j m)
unfolding field insert_field
field-insert_field key value [] j = refl
field-insert_field key value ((k, v) ∷ m) j = ground (
  arith,
  field-insert_field key value m j,
  cmp_codes-eq key k,
  cmp_codes_refl key,
  chars_eq_iff key j,
  chars_eq_iff k j,
)

collect_fields_sound :
    (raw m : Fields) {out : Fields}
    → IsSorted m
    → All IsEntry m
    → collect_fields raw m ≡ ok out
    → IsSorted out × All IsEntry out
unfolding collect_fields
collect_fields_sound [] m s e h = rw (← ok-injective h) (s, e)
collect_fields_sound ((key, value) ∷ rest) m s e h =
    let (_, token, more) = >>=-eq-ok (validate_token key) _ h in
    let (_, fits, last) = >>=-eq-ok (validate_value value) _ more in
    collect_fields_sound rest (insert_field key value m) (insert_field-IsSorted key value m s)
      (insert_field-All IsEntry key value m (token, fits) e (λ k v w p q. (p.0, q.1))) last

-- The fields of a job that is built: their keys rise, and each has a valid name and a valid value.
pub record IsJob (job : WorkerJob) : Type 0 where
  pub sorted : IsSorted job.fields
  pub entries : All IsEntry job.fields
  pub bounded : length job.fields ≤ max_fields

pub new_worker_job-IsJob :
    (kind : WorkerJobKind) (raw : Fields) {job : WorkerJob}
    → new_worker_job kind raw ≡ ok job
    → IsJob job
unfolding new_worker_job
new_worker_job-IsJob kind raw {job} h =
    let (out, e, g) = >>=-eq-ok (collect_fields raw []) _ h in
    let p = collect_fields_sound raw [] tt tt e in
    elim (Bool-cases (ltb max_fields (length out))) [
      | inl over ↦ ground arith
      | inr within ↦
          rw (← ok-injective (rw within at g))
            (record { sorted = p.0; entries = p.1; bounded = ground arith })
    ]

insert_field-append :
    (key value : Chars) (m : Fields)
    → All (λ e. cmp_codes e.0 key ≡ Ordering.lt) m
    → insert_field key value m ≡ m ++ (key, value) ∷ []
unfolding insert_field
insert_field-append key value [] h = refl
insert_field-append key value ((j, w) ∷ m) h =
    rw (cmp_codes-lt j key h.0, insert_field)
      (ap (◌∷◌ (j, w)) (insert_field-append key value m h.1))

collect_fields-append :
    (m fields : Fields)
    → IsSorted fields
    → All IsEntry fields
    → All (λ a. Below a.0 fields) m
    → collect_fields fields m ≡ ok (m ++ fields)
unfolding collect_fields
collect_fields-append m [] s e b = ap ok (sym (append-nil m))
collect_fields-append m ((key, value) ∷ rest) s e b = rw (e.0.0) (
    rw (e.0.1) (
      rw
        (insert_field-append key value m
          (All-map_of _ (λ a. cmp_codes a.0 key ≡ Ordering.lt) m (λ a p. p.0) b))
        (collect_fields-append (m ++ (key, value) ∷ []) rest s.1 e.1 (
            All-append (λ a. Below a.0 rest) m ((key, value) ∷ [])
              (All-map_of _ (λ a. Below a.0 rest) m (λ a p. p.1) b) (s.0, tt))
          ∙ ap ok (append_assoc m ((key, value) ∷ []) rest))))

-- The fields of a job build it again.
pub new_worker_job_again :
    (job : WorkerJob) → IsJob job → new_worker_job job.kind job.fields ≡ ok job
unfolding new_worker_job
new_worker_job_again job j =
    rw (collect_fields-append [] job.fields j.sorted j.entries tt)
      (let e : ltb max_fields (length job.fields) ≡ false = ground (arith, j.bounded) in rw e refl)
