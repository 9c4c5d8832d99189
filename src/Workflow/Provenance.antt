-- ===== src/Workflow/Provenance.antt =====
-- The upstream evidence of a node names every source once, and nothing else.
use multi_agent_ai_platform.Base.{
  ℕ, ◌≡◌, refl, sym, ◌∙◌, ap, subst, inl, inr, Bool, true, ◌||◌, Option, none, some, List, [], ◌∷◌,
  ◌++◌, ◌==◌, ==_iff, exists_where, arith, Bool-cases, Any, Among, All, Keyed,
}
use multi_agent_ai_platform.Schema.{Evidence}
use multi_agent_ai_platform.Workflow.Upstream.{Source}
use multi_agent_ai_platform.Workflow.Lineage.{
  add_source_key, put_evidence, put_source, evidence_from, upstream_evidence,
}

abbrev pub names : ℕ → Evidence → Bool
names key e = exists_where (λ k. k == key) e.source_node_keys

-- An entry for the artifact that lists the source's key.
abbrev pub Covers : ℕ → ℕ → List Evidence → Type 0
Covers artifact key entries = Any (λ e. (e.artifact_id ≡ artifact) × (names key e ≡ true)) entries

exists-snoc :
    (key k : ℕ) (keys : List ℕ)
    → exists_where (λ i. i == key) (keys ++ k ∷ []) ≡ exists_where (λ i. i == key) keys || k == key
exists-snoc key k [] = ground arith
exists-snoc key k (x ∷ keys) = ground (arith, exists-snoc key k keys)

-- Adding a key: the artifact stays, the key is named, and no other name comes or goes.
add-artifact : (key : ℕ) (e : Evidence) → (add_source_key key e).artifact_id ≡ e.artifact_id
add-artifact key e = ground arith

add-names : (key k : ℕ) (e : Evidence) → names k (add_source_key key e) ≡ names k e || key == k
add-names key k e = elim (Bool-cases (names key e)) [
  | inr fresh ↦ rw fresh (exists-snoc k key e.source_node_keys)
  | inl known ↦ rw known (elim (Bool-cases (key == k)) [
    | inr other ↦ ground (arith, other)
    | inl same ↦ rw (subst (λ i. names i e ≡ true) ((==_iff key k).0 same) known) refl
  ])
]

module _ (a key id : ℕ) where
  put-Covers : (es : List Evidence) → Covers a key (put_evidence a key id es)
  put-Covers [] = inl (refl, ground arith)
  put-Covers (e ∷ es) = elim (Bool-cases (e.artifact_id == a)) [
    | inl hit ↦ rw hit (
        inl (
          add-artifact key e ∙ (==_iff e.artifact_id a).0 hit,
          ground (arith, add-names key key e),
        ))
    | inr miss ↦ rw miss (inr (put-Covers es))
  ]

  put-keeps : (b k : ℕ) (es : List Evidence) → Covers b k es → Covers b k (put_evidence a key id es)
  put-keeps b k [] c = elim c [ ]
  put-keeps b k (e ∷ es) c = elim (Bool-cases (e.artifact_id == a)) [
    | inl hit ↦ rw hit (on_hit c)
    | inr miss ↦ rw miss (on_miss c (put-keeps b k es))
  ]
    where
      on_hit : Covers b k (e ∷ es) → Covers b k (add_source_key key e ∷ es)
      on_hit (inl (s, n)) = inl (add-artifact key e ∙ s, ground (arith, add-names key k e))
      on_hit (inr m) = inr m

      on_miss :
          Covers b k (e ∷ es)
          → (Covers b k es → Covers b k (put_evidence a key id es))
          → Covers b k (e ∷ put_evidence a key id es)
      on_miss (inl here) ih = inl here
      on_miss (inr m) ih = inr (ih m)

  put-apart :
      (b : ℕ) (es : List Evidence)
      → (b ≡ a → ⊥)
      → All (λ e. b ≡ e.artifact_id → ⊥) es
      → All (λ e. b ≡ e.artifact_id → ⊥) (put_evidence a key id es)
  put-apart b [] n h = (n, tt)
  put-apart b (e ∷ es) n h = elim (Bool-cases (e.artifact_id == a)) [
    | inl hit ↦ rw hit (λ s. h.0 (s ∙ add-artifact key e), h.1)
    | inr miss ↦ rw miss (h.0, put-apart b es n h.1)
  ]

  put-Keyed :
      (es : List Evidence)
      → Keyed (λ e. e.artifact_id) es
      → Keyed (λ e. e.artifact_id) (put_evidence a key id es)
  put-Keyed [] u = (tt, tt)
  put-Keyed (e ∷ es) u = elim (Bool-cases (e.artifact_id == a)) [
    | inl hit ↦
        rw hit
          (subst (λ b. All (λ x. b ≡ x.artifact_id → ⊥) es) (sym (add-artifact key e)) u.0, u.1)
    | inr miss ↦ rw miss (put-apart e.artifact_id es (λ s. ground arith) u.0, put-Keyed es u.1)
  ]

  -- Whatever holds of each artifact and key that is named.
  put-All :
      (P : ℕ → ℕ → Type 0) (es : List Evidence)
      → P a key
      → All (λ e. (k : ℕ) → names k e ≡ true → P e.artifact_id k) es
      → All (λ e. (k : ℕ) → names k e ≡ true → P e.artifact_id k) (put_evidence a key id es)
  put-All P [] p h = (λ k n. subst (P a) (ground arith) p, tt)
  put-All P (e ∷ es) p h = elim (Bool-cases (e.artifact_id == a)) [
    | inr miss ↦ rw miss (h.0, put-All P es p h.1)
    | inl hit ↦ rw hit (
      λ k n.
          subst (λ b. P b k) (sym (add-artifact key e))
            (elim (Bool-cases (names k e)) [
              | inl known ↦ h.0 k known
              | inr fresh ↦
                  let is_key : key ≡ k = ground (arith, add-names key k e) in
                  subst (P e.artifact_id) is_key
                    (subst (λ b. P b key) (sym ((==_iff e.artifact_id a).0 hit)) p)
            ]),
      h.1,
    )
  ]

-- One source, then all of them.
source-Keyed :
    (o : Option ℕ) (key id : ℕ) (es : List Evidence)
    → Keyed (λ e. e.artifact_id) es
    → Keyed (λ e. e.artifact_id) (put_source o key id es)
source-Keyed none key id es u = u
source-Keyed (some a) key id es u = put-Keyed a key id es u

source-keeps :
    (o : Option ℕ) (key id b k : ℕ) (es : List Evidence)
    → Covers b k es
    → Covers b k (put_source o key id es)
source-keeps none key id b k es c = c
source-keeps (some a) key id b k es c = put-keeps a key id b k es c

from-Keyed :
    (sources : List Source) (es : List Evidence)
    → Keyed (λ e. e.artifact_id) es
    → Keyed (λ e. e.artifact_id) (evidence_from es sources)
unfolding evidence_from
from-Keyed [] es u = u
from-Keyed ((key, nr) ∷ rest) es u =
    from-Keyed rest (put_source nr.output_snapshot_ref key nr.id es)
      (source-Keyed nr.output_snapshot_ref key nr.id es u)

from-keeps :
    (sources : List Source) (b k : ℕ) (es : List Evidence)
    → Covers b k es
    → Covers b k (evidence_from es sources)
unfolding evidence_from
from-keeps [] b k es c = c
from-keeps ((key, nr) ∷ rest) b k es c =
    from-keeps rest b k (put_source nr.output_snapshot_ref key nr.id es)
      (source-keeps nr.output_snapshot_ref key nr.id b k es c)

from-Covers :
    (sources : List Source) (es : List Evidence) (source : Source) (a : ℕ)
    → Among source sources
    → source.1.output_snapshot_ref ≡ some a
    → Covers a source.0 (evidence_from es sources)
unfolding evidence_from
from-Covers [] es source a m o = elim m [ ]
from-Covers ((key, nr) ∷ rest) es source a (inl e) o =
    let same_key : key ≡ source.0 = ap (λ (s : Source). s.0) e in
    let out : nr.output_snapshot_ref ≡ some a =
      ap (λ (s : Source). s.1.output_snapshot_ref) e ∙ o in
    from-keeps rest a source.0 (put_source nr.output_snapshot_ref key nr.id es) (
      rw out (
        subst (λ k. Covers a k (put_evidence a key nr.id es)) same_key (put-Covers a key nr.id es)))
from-Covers ((key, nr) ∷ rest) es source a (inr m) o =
    from-Covers rest (put_source nr.output_snapshot_ref key nr.id es) source a m o

module _ (P : ℕ → ℕ → Type 0) where
  source-All :
      (o : Option ℕ) (key id : ℕ) (es : List Evidence)
      → ((a : ℕ) → o ≡ some a → P a key)
      → All (λ e. (k : ℕ) → names k e ≡ true → P e.artifact_id k) es
      → All (λ e. (k : ℕ) → names k e ≡ true → P e.artifact_id k) (put_source o key id es)
  source-All none key id es p h = h
  source-All (some a) key id es p h = put-All a key id P es (p a refl) h

  from-All :
      (sources : List Source) (es : List Evidence)
      → ((source : Source) (a : ℕ)
          → Among source sources
          → source.1.output_snapshot_ref ≡ some a
          → P a source.0)
      → All (λ e. (k : ℕ) → names k e ≡ true → P e.artifact_id k) es
      → All (λ e. (k : ℕ) → names k e ≡ true → P e.artifact_id k) (evidence_from es sources)
  unfolding evidence_from
  from-All [] es p h = h
  from-All ((key, nr) ∷ rest) es p h =
      from-All rest (put_source nr.output_snapshot_ref key nr.id es) (λ s a m o. p s a (inr m) o)
        (source-All nr.output_snapshot_ref key nr.id es (λ a o. p (key, nr) a (inl refl) o) h)

-- The upstream evidence of a list of sources has one entry for each artifact; every source with an
-- artifact is covered: its node's key stands in that artifact's entry; and every key in an entry is that
-- of a source with the entry's artifact.
pub upstream_evidence_exact :
    (sources : List Source)
    → Keyed (λ e. e.artifact_id) (upstream_evidence sources)
      × ((source : Source) (a : ℕ)
          → Among source sources
          → source.1.output_snapshot_ref ≡ some a
          → Covers a source.0 (upstream_evidence sources))
      × All
          (λ e.
            (k : ℕ)
            → names k e ≡ true
            → (source : Source) × Among source sources
              × (source.0 ≡ k)
              × (source.1.output_snapshot_ref ≡ some e.artifact_id))
          (upstream_evidence sources)
unfolding upstream_evidence
upstream_evidence_exact sources = (
  from-Keyed sources [] tt,
  λ source a m o. from-Covers sources [] source a m o,
  from-All
      (λ a k.
        (source : Source) × Among source sources
        × (source.0 ≡ k)
        × (source.1.output_snapshot_ref ≡ some a))
      sources [] (λ source a m o. (source, m, refl, o)) tt,
)
