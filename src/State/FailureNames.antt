-- ===== src/State/FailureNames.antt =====
-- The texts that the failures of a job are stored as in the database, and how they are read back.
use zk_ie.Common.{List, [], ◌∷◌, Result, ok, String, ◌≡◌, refl, ◌↔◌}
use zk_ie.State.{FailureKind, FailureStage, FailureCode}
use zk_ie.State.Names.{UnknownEnumValue, match_text, match_text_sound}

-- `FailureKind::as_str`.
unfoldable pub failure_kind_as_str : FailureKind → String
failure_kind_as_str FailureKind.execution = "execution"
failure_kind_as_str FailureKind.verification = "verification"
failure_kind_as_str FailureKind.resource_exceeded = "resource-exceeded"
failure_kind_as_str FailureKind.dependency = "dependency"
failure_kind_as_str FailureKind.interrupted = "interrupted"

-- The arms of `FailureKind::try_from`.
abbrev failure_kind_table : List (String × FailureKind)
failure_kind_table =
    ("execution", FailureKind.execution)
    ∷ ("verification", FailureKind.verification)
    ∷ ("resource-exceeded", FailureKind.resource_exceeded)
    ∷ ("dependency", FailureKind.dependency)
    ∷ ("interrupted", FailureKind.interrupted)
    ∷ []

-- `FailureKind::try_from`.
unfoldable pub parse_failure_kind : String → Result UnknownEnumValue FailureKind
unfolding match_text
parse_failure_kind value = match_text failure_kind_table value

parse_failure_kind_of_as_str : (x : FailureKind) → parse_failure_kind (failure_kind_as_str x) ≡ ok x
unfolding parse_failure_kind failure_kind_as_str
parse_failure_kind_of_as_str FailureKind.execution = refl
parse_failure_kind_of_as_str FailureKind.verification = refl
parse_failure_kind_of_as_str FailureKind.resource_exceeded = refl
parse_failure_kind_of_as_str FailureKind.dependency = refl
parse_failure_kind_of_as_str FailureKind.interrupted = refl

parse_failure_kind_sound :
    (value : String) (x : FailureKind)
    → parse_failure_kind value ≡ ok x
    → value ≡ failure_kind_as_str x
unfolding parse_failure_kind failure_kind_as_str
parse_failure_kind_sound value x h =
    match_text_sound failure_kind_as_str failure_kind_table value
      (refl, (refl, (refl, (refl, (refl, tt))))) h

-- A stored text is read as a value of FailureKind exactly where it is the text that value is
-- stored as.
pub parse_failure_kind_iff :
    (value : String) (x : FailureKind)
    → (parse_failure_kind value ≡ ok x) ↔ (value ≡ failure_kind_as_str x)
parse_failure_kind_iff value x =
    (parse_failure_kind_sound value x, λ e. rw e (parse_failure_kind_of_as_str x))

-- `FailureStage::as_str`.
unfoldable pub failure_stage_as_str : FailureStage → String
failure_stage_as_str FailureStage.witness = "witness"
failure_stage_as_str FailureStage.prepare = "prepare"
failure_stage_as_str FailureStage.prove = "prove"
failure_stage_as_str FailureStage.verify = "verify"
failure_stage_as_str FailureStage.aggregate = "aggregate"
failure_stage_as_str FailureStage.scheduler = "scheduler"

-- The arms of `FailureStage::try_from`.
abbrev failure_stage_table : List (String × FailureStage)
failure_stage_table =
    ("witness", FailureStage.witness)
    ∷ ("prepare", FailureStage.prepare)
    ∷ ("prove", FailureStage.prove)
    ∷ ("verify", FailureStage.verify)
    ∷ ("aggregate", FailureStage.aggregate)
    ∷ ("scheduler", FailureStage.scheduler)
    ∷ []

-- `FailureStage::try_from`.
unfoldable pub parse_failure_stage : String → Result UnknownEnumValue FailureStage
unfolding match_text
parse_failure_stage value = match_text failure_stage_table value

parse_failure_stage_of_as_str :
    (x : FailureStage) → parse_failure_stage (failure_stage_as_str x) ≡ ok x
unfolding parse_failure_stage failure_stage_as_str
parse_failure_stage_of_as_str FailureStage.witness = refl
parse_failure_stage_of_as_str FailureStage.prepare = refl
parse_failure_stage_of_as_str FailureStage.prove = refl
parse_failure_stage_of_as_str FailureStage.verify = refl
parse_failure_stage_of_as_str FailureStage.aggregate = refl
parse_failure_stage_of_as_str FailureStage.scheduler = refl

parse_failure_stage_sound :
    (value : String) (x : FailureStage)
    → parse_failure_stage value ≡ ok x
    → value ≡ failure_stage_as_str x
unfolding parse_failure_stage failure_stage_as_str
parse_failure_stage_sound value x h =
    match_text_sound failure_stage_as_str failure_stage_table value
      (refl, (refl, (refl, (refl, (refl, (refl, tt)))))) h

-- A stored text is read as a value of FailureStage exactly where it is the text that value is
-- stored as.
pub parse_failure_stage_iff :
    (value : String) (x : FailureStage)
    → (parse_failure_stage value ≡ ok x) ↔ (value ≡ failure_stage_as_str x)
parse_failure_stage_iff value x =
    (parse_failure_stage_sound value x, λ e. rw e (parse_failure_stage_of_as_str x))

-- `FailureCode::as_str`.
unfoldable pub failure_code_as_str : FailureCode → String
failure_code_as_str FailureCode.worker_exit = "worker_exit"
failure_code_as_str FailureCode.invalid_result = "invalid_result"
failure_code_as_str FailureCode.resource_limit = "resource_limit"
failure_code_as_str FailureCode.predecessor_failed = "predecessor_failed"
failure_code_as_str FailureCode.scheduler_restart = "scheduler_restart"

-- The arms of `FailureCode::try_from`.
abbrev failure_code_table : List (String × FailureCode)
failure_code_table =
    ("worker_exit", FailureCode.worker_exit)
    ∷ ("invalid_result", FailureCode.invalid_result)
    ∷ ("resource_limit", FailureCode.resource_limit)
    ∷ ("predecessor_failed", FailureCode.predecessor_failed)
    ∷ ("scheduler_restart", FailureCode.scheduler_restart)
    ∷ []

-- `FailureCode::try_from`.
unfoldable pub parse_failure_code : String → Result UnknownEnumValue FailureCode
unfolding match_text
parse_failure_code value = match_text failure_code_table value

parse_failure_code_of_as_str : (x : FailureCode) → parse_failure_code (failure_code_as_str x) ≡ ok x
unfolding parse_failure_code failure_code_as_str
parse_failure_code_of_as_str FailureCode.worker_exit = refl
parse_failure_code_of_as_str FailureCode.invalid_result = refl
parse_failure_code_of_as_str FailureCode.resource_limit = refl
parse_failure_code_of_as_str FailureCode.predecessor_failed = refl
parse_failure_code_of_as_str FailureCode.scheduler_restart = refl

parse_failure_code_sound :
    (value : String) (x : FailureCode)
    → parse_failure_code value ≡ ok x
    → value ≡ failure_code_as_str x
unfolding parse_failure_code failure_code_as_str
parse_failure_code_sound value x h =
    match_text_sound failure_code_as_str failure_code_table value
      (refl, (refl, (refl, (refl, (refl, tt))))) h

-- A stored text is read as a value of FailureCode exactly where it is the text that value is
-- stored as.
pub parse_failure_code_iff :
    (value : String) (x : FailureCode)
    → (parse_failure_code value ≡ ok x) ↔ (value ≡ failure_code_as_str x)
parse_failure_code_iff value x =
    (parse_failure_code_sound value x, λ e. rw e (parse_failure_code_of_as_str x))
