-- ===== src/Dag/Linker/Laws.antt =====
-- When the linker accepts.
use zk_ie.Common.{
  ◌≡◌, refl, ◌↔◌, List, [], ◌∷◌, ok, All, arith, >>=-eq-ok, Option-cases, Result-cases, inl, inr,
}
use zk_ie.Dag.{Shard, Edge, Graph}
use zk_ie.Dag.Linker.{
  ShardProof, get_proof, link_shards, link_edge, link_edges, link, IsLinkedShard, IsLinkedEdge,
  bytes_eq_iff, get_proof_iff, commitment_of,
}

link_shards_iff :
    (proofs : List ShardProof) (shards : List Shard)
    → (link_shards proofs shards ≡ ok tt) ↔ All (IsLinkedShard proofs) shards
unfolding link_shards
link_shards_iff proofs shards = (sound shards, complete shards)
  where
    sound : (ss : List Shard) → link_shards proofs ss ≡ ok tt → All (IsLinkedShard proofs) ss
    sound [] h = tt
    sound (s ∷ ss) h = elim (Result-cases (get_proof proofs s.id)) [
      | inr (e, is) ↦ absurd (ground (arith, h, is))
      | inl (p, is) ↦ (
        (p, (get_proof_iff proofs s.id p).0 is, ground (arith, h, is)),
        sound ss (ground (arith, h, is)),
      )
    ]

    complete : (ss : List Shard) → All (IsLinkedShard proofs) ss → link_shards proofs ss ≡ ok tt
    complete [] a = refl
    complete (s ∷ ss) a =
        let (p, l, v) = a.0 in ground (arith, (get_proof_iff proofs s.id p).1 l, v, complete ss a.1)

link_edge_iff :
    (proofs : List ShardProof) (e : Edge) → (link_edge proofs e ≡ ok tt) ↔ IsLinkedEdge proofs e
unfolding link_edge
link_edge_iff proofs e = (sound, complete)
  where
    complete : IsLinkedEdge proofs e → link_edge proofs e ≡ ok tt
    complete l = ground (
      arith,
      (get_proof_iff proofs e.producer l.producer).1 l.proves,
      (get_proof_iff proofs e.consumer l.consumer).1 l.uses,
      l.produced,
      l.consumed,
      bytes_eq_iff l.commitment l.commitment,
    )

    sound : link_edge proofs e ≡ ok tt → IsLinkedEdge proofs e
    sound h = elim (Result-cases (get_proof proofs e.producer)) [
      | inr (x, is) ↦ absurd (ground (arith, h, is))
      | inl (p, is) ↦ elim (Result-cases (get_proof proofs e.consumer)) [
        | inr (x, is') ↦ absurd (ground (arith, h, is, is'))
        | inl (c, is') ↦ elim (Option-cases (commitment_of e.register p.output_commitments)) [
          | inl lacks ↦ absurd (ground (arith, h, is, is', lacks))
          | inr (k, made) ↦ elim (Option-cases (commitment_of e.register c.input_commitments)) [
            | inl lacks ↦ absurd (ground (arith, h, is, is', made, lacks))
            | inr (k', used) ↦
                let same : k ≡ k' =
                  (bytes_eq_iff k k').0 (ground (arith, h, is, is', made, used)) in
                record {
                  producer = p;
                  consumer = c;
                  commitment = k;
                  proves = (get_proof_iff proofs e.producer p).0 is;
                  uses = (get_proof_iff proofs e.consumer c).0 is';
                  produced = made;
                  consumed = rw same used;
                }
          ]
        ]
      ]
    ]

link_edges_iff :
    (proofs : List ShardProof) (edges : List Edge)
    → (link_edges proofs edges ≡ ok tt) ↔ All (IsLinkedEdge proofs) edges
unfolding link_edges
link_edges_iff proofs edges = (sound edges, complete edges)
  where
    sound : (es : List Edge) → link_edges proofs es ≡ ok tt → All (IsLinkedEdge proofs) es
    sound [] h = tt
    sound (e ∷ es) h =
        let (_, is, rest) = >>=-eq-ok (link_edge proofs e) (λ _. link_edges proofs es) h in
        ((link_edge_iff proofs e).0 (is), sound es rest)

    complete : (es : List Edge) → All (IsLinkedEdge proofs) es → link_edges proofs es ≡ ok tt
    complete [] a = refl
    complete (e ∷ es) a = ground (arith, (link_edge_iff proofs e).1 a.0, complete es a.1)

-- A set of proofs is accepted exactly where every shard has its own valid proof at its place and,
-- on every edge, the commitment of the producer to the register is that of the consumer.
pub link_iff :
    (dag : Graph) (proofs : List ShardProof)
    → (link dag proofs ≡ ok tt)
      ↔ (All (IsLinkedShard proofs) dag.shards × All (IsLinkedEdge proofs) dag.edges)
unfolding link
link_iff dag proofs = (sound, complete)
  where
    sound :
        link dag proofs ≡ ok tt
        → All (IsLinkedShard proofs) dag.shards × All (IsLinkedEdge proofs) dag.edges
    sound h =
        let (_, is, rest) =
          >>=-eq-ok (link_shards proofs dag.shards) (λ _. link_edges proofs dag.edges) h in
        ((link_shards_iff proofs dag.shards).0 (is), (link_edges_iff proofs dag.edges).0 rest)

    complete :
        All (IsLinkedShard proofs) dag.shards × All (IsLinkedEdge proofs) dag.edges
        → link dag proofs ≡ ok tt
    complete a =
        ground (
          arith,
          (link_shards_iff proofs dag.shards).1 a.0,
          (link_edges_iff proofs dag.edges).1 a.1,
        )
