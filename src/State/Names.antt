-- ===== src/State/Names.antt =====
-- The texts under which kinds, states and failures are stored, and how they are read back.
use zk_ie.Common.{
  List, [], ◌∷◌, Result, ok, err, String, if◌then◌else◌, ◌≡◌, refl, ap, ◌∙◌, arith, ◌↔◌, inl, inr,
  All, Bool-cases,
}
use zk_ie.Common.Text.{str_eq, eq_iff}
use zk_ie.State.{JobKind, JobState}

-- `UnknownEnumValue`.
pub data UnknownEnumValue : Type 0 where
  unknown : String → UnknownEnumValue

-- A `match` on the text with an arm for each row, and the error as the last arm.
unfoldable pub match_text : {A : Type 0} → List (String × A) → String → Result UnknownEnumValue A
match_text [] value = err (unknown value)
match_text ((text, x) ∷ rows) value =
    let rest = match_text rows value in if str_eq value text then ok x else rest

-- What a row of the table gives is what was written.
pub match_text_sound :
    {A : Type 0} (as_str : A → String) (rows : List (String × A)) (value : String) {x : A}
    → All (λ row. row.0 ≡ as_str row.1) rows
    → match_text rows value ≡ ok x
    → value ≡ as_str x
unfolding match_text
match_text_sound as_str [] value a h = cc
match_text_sound as_str ((text, y) ∷ rows) value {x} a h = elim (Bool-cases (str_eq value text)) [
  | inl same ↦ let e : y ≡ x = ground arith in (eq_iff value text).0 same ∙ a.0 ∙ ap as_str e
  | inr other ↦ match_text_sound as_str rows value a.1 (rw other at h)
]

-- `JobKind::as_str`.
unfoldable pub kind_as_str : JobKind → String
kind_as_str JobKind.witness = "witness"
kind_as_str JobKind.prepare = "prepare"
kind_as_str JobKind.leaf_proof = "leaf-proof"
kind_as_str JobKind.leaf_verification = "leaf-verification"
kind_as_str JobKind.native_aggregate = "native-aggregate"

-- The arms of `JobKind::try_from`.
abbrev kind_table : List (String × JobKind)
kind_table =
    ("witness", JobKind.witness)
    ∷ ("prepare", JobKind.prepare)
    ∷ ("leaf-proof", JobKind.leaf_proof)
    ∷ ("leaf-verification", JobKind.leaf_verification)
    ∷ ("native-aggregate", JobKind.native_aggregate)
    ∷ []

-- `JobKind::try_from`.
unfoldable pub parse_kind : String → Result UnknownEnumValue JobKind
unfolding match_text
parse_kind value = match_text kind_table value

parse_kind_of_as_str : (x : JobKind) → parse_kind (kind_as_str x) ≡ ok x
unfolding parse_kind kind_as_str
parse_kind_of_as_str JobKind.witness = refl
parse_kind_of_as_str JobKind.prepare = refl
parse_kind_of_as_str JobKind.leaf_proof = refl
parse_kind_of_as_str JobKind.leaf_verification = refl
parse_kind_of_as_str JobKind.native_aggregate = refl

parse_kind_sound : (value : String) (x : JobKind) → parse_kind value ≡ ok x → value ≡ kind_as_str x
unfolding parse_kind kind_as_str
parse_kind_sound value x h =
    match_text_sound kind_as_str kind_table value (refl, (refl, (refl, (refl, (refl, tt))))) h

-- A stored text is read as a value of JobKind exactly where it is the text that value is stored
-- as.
pub parse_kind_iff :
    (value : String) (x : JobKind) → (parse_kind value ≡ ok x) ↔ (value ≡ kind_as_str x)
parse_kind_iff value x = (parse_kind_sound value x, λ e. rw e (parse_kind_of_as_str x))

-- `JobState::as_str`.
unfoldable pub state_as_str : JobState → String
state_as_str JobState.pending = "pending"
state_as_str JobState.ready = "ready"
state_as_str JobState.witnessing = "witnessing"
state_as_str JobState.witness_ready = "witness-ready"
state_as_str JobState.preparing = "preparing"
state_as_str JobState.prepared = "prepared"
state_as_str JobState.proving = "proving"
state_as_str JobState.proved = "proved"
state_as_str JobState.verifying = "verifying"
state_as_str JobState.verified = "verified"
state_as_str JobState.execution_failed = "execution-failed"
state_as_str JobState.verification_failed = "verification-failed"
state_as_str JobState.resource_exceeded = "resource-exceeded"
state_as_str JobState.interrupted = "interrupted"
state_as_str JobState.requeued = "requeued"
state_as_str JobState.blocked = "blocked"

-- The arms of `JobState::try_from`.
abbrev state_table : List (String × JobState)
state_table =
    ("pending", JobState.pending)
    ∷ ("ready", JobState.ready)
    ∷ ("witnessing", JobState.witnessing)
    ∷ ("witness-ready", JobState.witness_ready)
    ∷ ("preparing", JobState.preparing)
    ∷ ("prepared", JobState.prepared)
    ∷ ("proving", JobState.proving)
    ∷ ("proved", JobState.proved)
    ∷ ("verifying", JobState.verifying)
    ∷ ("verified", JobState.verified)
    ∷ ("execution-failed", JobState.execution_failed)
    ∷ ("verification-failed", JobState.verification_failed)
    ∷ ("resource-exceeded", JobState.resource_exceeded)
    ∷ ("interrupted", JobState.interrupted)
    ∷ ("requeued", JobState.requeued)
    ∷ ("blocked", JobState.blocked)
    ∷ []

-- `JobState::try_from`.
unfoldable pub parse_state : String → Result UnknownEnumValue JobState
unfolding match_text
parse_state value = match_text state_table value

parse_state_of_as_str : (x : JobState) → parse_state (state_as_str x) ≡ ok x
unfolding parse_state state_as_str
parse_state_of_as_str JobState.pending = refl
parse_state_of_as_str JobState.ready = refl
parse_state_of_as_str JobState.witnessing = refl
parse_state_of_as_str JobState.witness_ready = refl
parse_state_of_as_str JobState.preparing = refl
parse_state_of_as_str JobState.prepared = refl
parse_state_of_as_str JobState.proving = refl
parse_state_of_as_str JobState.proved = refl
parse_state_of_as_str JobState.verifying = refl
parse_state_of_as_str JobState.verified = refl
parse_state_of_as_str JobState.execution_failed = refl
parse_state_of_as_str JobState.verification_failed = refl
parse_state_of_as_str JobState.resource_exceeded = refl
parse_state_of_as_str JobState.interrupted = refl
parse_state_of_as_str JobState.requeued = refl
parse_state_of_as_str JobState.blocked = refl

parse_state_sound :
    (value : String) (x : JobState) → parse_state value ≡ ok x → value ≡ state_as_str x
unfolding parse_state state_as_str
parse_state_sound value x h =
    match_text_sound state_as_str state_table value
      (
        refl,
        (
          refl,
          (
            refl,
            (
              refl,
              (
                refl,
                (
                  refl,
                  (
                    refl,
                    (refl, (refl, (refl, (refl, (refl, (refl, (refl, (refl, (refl, tt))))))))),
                  ),
                ),
              ),
            ),
          ),
        ),
      )
      h

-- A stored text is read as a value of JobState exactly where it is the text that value is stored
-- as.
pub parse_state_iff :
    (value : String) (x : JobState) → (parse_state value ≡ ok x) ↔ (value ≡ state_as_str x)
parse_state_iff value x = (parse_state_sound value x, λ e. rw e (parse_state_of_as_str x))
