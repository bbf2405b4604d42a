-- ===== src/Prolly/Tree/Contents.antt =====
-- The contents of a tree as one finite map: what `stream_pairs` yields, and what a descent finds.
use rust_defluencer.Prolly.Tree.Ranges.{
  gather, contents, below, IsOrdered, read-zip, descend, descend-child,
}
use rust_defluencer.Base.{
  ℕ, zero, suc, ◌≡◌, refl, List, [], ◌∷◌, some, arith, length, map, map-append, ok,
}
use rust_defluencer.Base.Key.{Key}
use rust_defluencer.Base.Sets.{map_get}
use rust_defluencer.Ipfs.{Ipfs, Linked, dag_get}
use rust_defluencer.Prolly.Node.{pairs, zip}
use rust_defluencer.Prolly.Node.Pairs.{All}
use rust_defluencer.Prolly.Ipld.{TreeNodes, branch, leaf}
use rust_defluencer.Prolly.Tree.{or_failed, flatten_all, stream_nodes, stream_pairs}
use rust_defluencer.Prolly.Tree.Ordered.{Increasing, contents-Increasing}
use rust_defluencer.Prolly.Tree.Reads.{get_one, IsTree}

module _ {K V C S : Type 0} ⦃keys : Key K⦄ (ipfs : Ipfs C S)
    (codec : Linked ipfs.Block (TreeNodes K V C)) (s : S) where
  abbrev Reads : ℕ → TreeNodes K V C → Type 0
  Reads depth nodes =
      (key : K)
      → get_one ipfs codec depth nodes key s ≡ map_get key (contents ipfs codec s depth nodes)

  -- What holds of the children whose blocks are there holds of what is read through the links.
  child-Reads :
      (depth : ℕ) (key : K) (cs : List C)
      → ((nodes : TreeNodes K V C)
          → IsTree ipfs codec depth nodes s
          → IsOrdered ipfs codec s depth nodes
          → Reads depth nodes)
      → All
          (λ c.
            (nodes : TreeNodes K V C) × (dag_get ipfs codec c s ≡ ok nodes)
            × IsTree ipfs codec depth nodes s)
          cs
      → All
          (λ c.
            (nodes : TreeNodes K V C)
            → dag_get ipfs codec c s ≡ ok nodes
            → IsOrdered ipfs codec s depth nodes)
          cs
      → All
          (λ c. descend ipfs codec s depth key (some c) ≡ map_get key (below ipfs codec s depth c))
          cs
  child-Reads depth key [] ih t o = tt
  child-Reads depth key (c ∷ cs) ih t o =
      let (nodes, load, tree) = t.0 in
      (rw (load, descend) (ih nodes tree (o.0 nodes load) key), child-Reads depth key cs ih t.1 o.1)

  get_one-contents :
      (depth : ℕ) (nodes : TreeNodes K V C)
      → IsTree ipfs codec depth nodes s
      → IsOrdered ipfs codec s depth nodes
      → Reads depth nodes
  unfolding IsTree IsOrdered contents get_one
  get_one-contents zero nodes t o key = absurd t
  get_one-contents (suc depth) (leaf node) t o key =
      unfold pairs in read-zip key node.keys node.values
  get_one-contents (suc depth) (branch node) t o key =
      descend-child ipfs codec s depth key node.keys node.values t.0.paired t.0.sorted o.0 (
        child-Reads depth key node.values (λ nodes t o key. get_one-contents depth nodes t o key)
          t.1 o.1)

  stream_below :
      (depth : ℕ) (ks : List K) (cs : List C)
      → length ks ≡ length cs
      → ((nodes : TreeNodes K V C)
          → IsTree ipfs codec depth nodes s
          → stream_nodes ipfs codec depth nodes s
            ≡ some (map ok (contents ipfs codec s depth nodes)))
      → All
          (λ c.
            (nodes : TreeNodes K V C) × (dag_get ipfs codec c s ≡ ok nodes)
            × IsTree ipfs codec depth nodes s)
          cs
      → flatten_all
          (λ pair.
            or_failed
              (dag_get ipfs codec pair.1 s)
              (λ nodes. stream_nodes ipfs codec depth nodes s))
          (zip ks cs)
        ≡ some (map ok (gather ipfs codec s (below ipfs codec s depth) cs))
  unfolding flatten_all zip
  stream_below depth [] [] n ih t = refl
  stream_below depth [] (c ∷ cs) n ih t = absurd (omega arith)
  stream_below depth (k ∷ ks) [] n ih t = absurd (omega arith)
  stream_below depth (k ∷ ks) (c ∷ cs) n ih t =
      let (nodes, load, tree) = t.0 in
      rw
        (
          load,
          or_failed,
          ih nodes tree,
          stream_below depth ks cs (omega arith) ih t.1,
          map-append (λ (z : K × V). ok z) (contents ipfs codec s depth nodes)
              (gather ipfs codec s (below ipfs codec s depth) cs),
        )
        refl

  stream_nodes-contents :
      (depth : ℕ) (nodes : TreeNodes K V C)
      → IsTree ipfs codec depth nodes s
      → stream_nodes ipfs codec depth nodes s ≡ some (map ok (contents ipfs codec s depth nodes))
  unfolding IsTree stream_nodes contents pairs
  stream_nodes-contents zero nodes t = absurd t
  stream_nodes-contents (suc depth) (leaf node) t = refl
  stream_nodes-contents (suc depth) (branch node) t =
      stream_below depth node.keys node.values t.0.paired
        (λ nodes t. stream_nodes-contents depth nodes t) t.1

-- Where the root is that of a tree of at most `depth` levels whose children hold keys in the range
-- that their parent says, `stream_pairs` ends without an error, and yields pairs in the order of their
-- keys, no key twice, in which every key has what the descent for the single key finds.
pub stream_pairs_lem :
    {K V C S : Type 0} ⦃keys : Key K⦄ (ipfs : Ipfs C S)
    (codec : Linked ipfs.Block (TreeNodes K V C)) (depth : ℕ) (root : C) (nodes : TreeNodes K V C)
    (s : S)
    → dag_get ipfs codec root s ≡ ok nodes
    → IsTree ipfs codec depth nodes s
    → IsOrdered ipfs codec s depth nodes
    → (zs : List (K × V)) × (stream_pairs ipfs codec depth root s ≡ some (map ok zs))
      × Increasing zs
      × ((key : K) → get_one ipfs codec depth nodes key s ≡ map_get key zs)
unfolding stream_pairs
stream_pairs_lem ipfs codec depth root nodes s load t o = (
  contents ipfs codec s depth nodes,
  rw (load, or_failed) (stream_nodes-contents ipfs codec s depth nodes t),
  contents-Increasing ipfs codec s depth nodes t o,
  get_one-contents ipfs codec s depth nodes t o,
)
