-- ===== src/Dag/Linker.antt =====
-- dag/linker.rs: a set of shard proofs is accepted against the graph of the shards. A `HashMap` is
-- an association list, and a commitment the list of its 32 bytes.
pub mod Laws
use zk_ie.Common.{
  ℕ, ◌≡◌, refl, ◌↔◌, Bool, true, false, ◌&&◌, Option, none, some, List, [], ◌∷◌, Result, ok, err,
  ◌>>=◌, ◌>>◌, guard, ok_or, if◌then◌else◌, ◌==◌, get_elem?, All, arith, Option-cases, Result-cases,
  inl, inr, >>=-eq-ok,
}
use zk_ie.Dag.{Register, register_eq, Shard, Edge, Graph}

pub record ShardProof : Type 0 where
  pub shard_id : ℕ
  pub input_commitments : List (Register × List ℕ)
  pub output_commitments : List (Register × List ℕ)
  pub valid : Bool

pub data Side : Type 0 where
  input output : Side

pub data LinkError : Type 0 where
  invalid_shard : ℕ → LinkError
  commitment_mismatch : (producer consumer : ℕ) → Register → LinkError
  missing_proof : ℕ → LinkError
  shard_id_mismatch : (expected found : ℕ) → LinkError
  missing_commitment : ℕ → Register → Side → LinkError

abbrev pub bytes_eq : List ℕ → List ℕ → Bool
bytes_eq [] [] = true
bytes_eq (a ∷ as') (b ∷ bs) = (a == b) && bytes_eq as' bs
bytes_eq _ _ = false

-- `HashMap::get`.
abbrev pub commitment_of : Register → List (Register × List ℕ) → Option (List ℕ)
commitment_of r [] = none
commitment_of r (entry ∷ rest) =
    if register_eq entry.0 r then some entry.1 else commitment_of r rest

unfoldable pub get_proof : List ShardProof → ℕ → Result LinkError ShardProof
get_proof proofs shard_id = elim (get_elem? proofs shard_id) [
  | none ↦ err (missing_proof shard_id)
  | some proof ↦
      if proof.shard_id == shard_id
      then ok proof
      else err (shard_id_mismatch shard_id proof.shard_id)
]

unfoldable pub link_shards : List ShardProof → List Shard → Result LinkError (Unit {0})
link_shards proofs [] = ok tt
link_shards proofs (shard ∷ shards) = do
  proof ← get_proof proofs shard.id
  guard proof.valid (invalid_shard shard.id)
  link_shards proofs shards

unfoldable pub link_edge : List ShardProof → Edge → Result LinkError (Unit {0})
link_edge proofs edge = do
  producer ← get_proof proofs edge.producer
  consumer ← get_proof proofs edge.consumer
  produced ←
      ok_or (commitment_of edge.register producer.output_commitments)
        (missing_commitment edge.producer edge.register output)
  consumed ←
      ok_or (commitment_of edge.register consumer.input_commitments)
        (missing_commitment edge.consumer edge.register input)
  guard (bytes_eq produced consumed) (commitment_mismatch edge.producer edge.consumer edge.register)

unfoldable pub link_edges : List ShardProof → List Edge → Result LinkError (Unit {0})
link_edges proofs [] = ok tt
link_edges proofs (edge ∷ edges) = link_edge proofs edge >> link_edges proofs edges

unfoldable pub link : Graph → List ShardProof → Result LinkError (Unit {0})
link dag proofs = link_shards proofs dag.shards >> link_edges proofs dag.edges

-- The proof of a shard stands at its place.
pub record IsProofOf (proofs : List ShardProof) (id : ℕ) (p : ShardProof) : Type 0 where
  pub at : get_elem? proofs id ≡ some p
  pub names : p.shard_id ≡ id

abbrev pub IsLinkedShard : List ShardProof → Shard → Type 0
IsLinkedShard proofs s = (p : ShardProof) × IsProofOf proofs s.id p × (p.valid ≡ true)

-- What the producer's proof commits to as its output, the consumer's commits to as its input.
pub record IsLinkedEdge (proofs : List ShardProof) (e : Edge) : Type 0 where
  pub producer : ShardProof
  pub consumer : ShardProof
  pub commitment : List ℕ
  pub proves : IsProofOf proofs e.producer producer
  pub uses : IsProofOf proofs e.consumer consumer
  pub produced : commitment_of e.register producer.output_commitments ≡ some commitment
  pub consumed : commitment_of e.register consumer.input_commitments ≡ some commitment

pub bytes_eq_iff : (a b : List ℕ) → (bytes_eq a b ≡ true) ↔ (a ≡ b)
bytes_eq_iff a b = (sound a b, λ e. rw e (complete b))
  where
    sound : (a b : List ℕ) → bytes_eq a b ≡ true → a ≡ b
    sound [] [] h = refl
    sound [] (b ∷ bs) h = cc
    sound (a ∷ as') [] h = cc
    sound (a ∷ as') (b ∷ bs) h = ground (arith, sound as' bs)

    complete : (a : List ℕ) → bytes_eq a a ≡ true
    complete [] = refl
    complete (a ∷ as') = ground (arith, complete as')

pub get_proof_iff :
    (proofs : List ShardProof) (id : ℕ) (p : ShardProof)
    → (get_proof proofs id ≡ ok p) ↔ IsProofOf proofs id p
unfolding get_proof
get_proof_iff proofs id p = (sound, complete)
  where
    sound : get_proof proofs id ≡ ok p → IsProofOf proofs id p
    sound h = ground arith

    complete : IsProofOf proofs id p → get_proof proofs id ≡ ok p
    complete l = ground (arith, l.at, l.names)
