-- ===== src/LinkedList/CopyLaws.antt =====
-- `add_last_improved`: a new node behind the last one, with a copy of the data.
use client_server_protocoale.Common.{
  ℕ, ◌≤◌, ◌≡◌, ◌≢◌, Option, some, none, true, false, [], ◌∷◌, ◌++◌, arith, ◌==◌, ◌∙◌, leb, length,
  pos, take, List, ap,
}
use client_server_protocoale.LinkedList.Memory.{
  Ptr, null, node, LinkedList, Memory, write, ok, Returns, load_block, store_block,
}
use client_server_protocoale.LinkedList.Cells.{
  Cells, has, IsList, ListAt, not-has_of_none, not-has-snoc,
}
use client_server_protocoale.LinkedList.Steps.{
  put, not_null, set_payload-ok, malloc_node-ok, write_self,
}
use client_server_protocoale.LinkedList.Add.{copy_block, add_last_improved, link_last}
use client_server_protocoale.LinkedList.AddLaws.{
  link_last_lem, Returns-mono, Listed-put, ListAt-snoc,
}

-- The copy's block holds the first `bytes` bytes of the source, other blocks and the nodes outside
-- the list are as before.
pub record Copied (m g : Memory) (xs : Cells) (fresh_data : Ptr) (b : List ℕ) : Type 0 where
  pub copy : g.blocks fresh_data ≡ some b
  pub blocks : (a : Ptr) → (a == fresh_data) ≡ false → g.blocks a ≡ m.blocks a
  pub nodes : (a : Ptr) → has a xs ≡ false → g.nodes a ≡ m.nodes a

copy_block-ok :
    (m : Memory) (dst src : Ptr) (bytes : ℕ) (b : List ℕ)
    → (dst == null) ≡ false
    → (src == null) ≡ false
    → m.blocks src ≡ some b
    → bytes ≤ length b
    → copy_block dst src bytes m
      ≡ ok tt (record m { blocks = write m.blocks dst (some (take bytes b)) })
unfolding copy_block load_block store_block
copy_block-ok m dst src bytes b nd ns e fits =
    let fits' : leb bytes (length b) ≡ true = ground arith in rw (ns, e, fits', nd)

module _ (m : Memory) (l : LinkedList) (xs : Cells) (fresh fresh_data src : Ptr) (bytes : ℕ)
    (b : List ℕ) where
  -- On a list in order, with addresses from `malloc` that are not NULL, the node's not allocated,
  -- and a source block of at least `bytes` bytes, `add_last_improved` ends without a fault: the list
  -- is in order with a copy of those bytes as its last, and no other block and no node outside is
  -- changed.
  pub add_last_improved_lem :
      IsList m l xs
      → fresh ≢ null
      → m.nodes fresh ≡ none
      → fresh_data ≢ null
      → src ≢ null
      → m.blocks src ≡ some b
      → bytes ≤ length b
      → Returns
          (λ l' g.
            ListAt g l' (xs ++ (fresh, fresh_data) ∷ [])
            × Copied m g (xs ++ (fresh, fresh_data) ∷ []) fresh_data (take bytes b))
          (add_last_improved fresh fresh_data (some l) src bytes m)
  unfolding add_last_improved
  add_last_improved_lem is ne unused nd ns e fits =
      let out = not-has_of_none m.nodes fresh xs null is.linked unused in
      let m1 = put m fresh (node null null) in
      let m2 = put m1 fresh (node fresh_data null) in
      let m3 = record m2 { blocks = write m.blocks fresh_data (some (take bytes b)) } in
      let is2 =
        Listed-put m1 l xs (pos (length xs)) fresh (node fresh_data null)
          (Listed-put m l xs (pos (length xs)) fresh (node null null) is out) out in
      rw
        (
          malloc_node-ok m fresh (not_null fresh ne),
          set_payload-ok m1 fresh (node null null) (not_null fresh ne)
              (write_self m.nodes fresh (node null null)) fresh_data,
          copy_block-ok m2 fresh_data src bytes b (not_null fresh_data nd) (not_null src ns) e fits,
        )
        (Returns-mono (link_last l fresh m3)
          (link_last_lem m3 l (pos (length xs)) fresh (node fresh_data null) ne
            (write_self m1.nodes fresh (node fresh_data null)) xs
            (record {
              linked = is2.linked;
              distinct = is2.distinct;
              head = is2.head;
              tail = is2.tail;
              size = is2.size;
            })
            out)
          (λ l' g (at, same). (
            ListAt-snoc g l' xs (fresh, fresh_data) at,
            record {
              copy = ap (λ (f : Ptr → Option (List ℕ)). f fresh_data) same.blocks ∙ there;
              blocks =
                  λ a o. ap (λ (f : Ptr → Option (List ℕ)). f a) same.blocks ∙ elsewhere_block a o;
              nodes = λ a o. same.nodes a o ∙ elsewhere a (not-has-snoc a xs fresh fresh_data o).1;
            },
          )))
    where
      there : write m.blocks fresh_data (some (take bytes b)) fresh_data ≡ some (take bytes b)
      there = ground arith

      elsewhere_block :
          (a : Ptr)
          → (a == fresh_data) ≡ false
          → write m.blocks fresh_data (some (take bytes b)) a ≡ m.blocks a
      elsewhere_block a o = rw o

      elsewhere :
          (a : Ptr)
          → (a == fresh) ≡ false
          → write
              (write m.nodes fresh (some (node null null)))
              fresh
              (some (node fresh_data null))
              a
            ≡ m.nodes a
      elsewhere a o = rw o
