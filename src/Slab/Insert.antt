-- ===== src/Slab/Insert.antt =====
-- What `insert` does to what a valid slab holds.
use mathlib.Core.Path.{subst}
use monoio.Prelude.{
  ℕ, zero, suc, ◌+◌, ◌-◌, ◌^◌, ◌≤◌, ◌<◌, ◌≡◌, refl, sym, ap, ◌∙◌, ◌⊎◌, inl, inr, Bool, true, false,
  Bool-cases, ◌==◌, ==_iff, ltb, lt→ltb, if◌then◌else◌, Option, none, some, get_elem?, length-set,
  set-get_elem?, Outcome, ok, panic, undefined, arith,
}
use monoio.Slab.{Slab, put_page, page_or_new, write, insert_from, insert}
use monoio.Slab.Index.{num_pages, get_page_id, base_of, get_page_id-base, base_of-get_page_id}
use monoio.Slab.Inv.{IsPage, Inv, view, held, size-le, Inv-put, view-put, place, create-IsPage}
use monoio.Slab.Page
use monoio.Slab.Page.{Page}
use monoio.Slab.Page.Inv as PageInv
use monoio.Slab.Page.Laws.{Stored, alloc-Stored, alloc-full}

module _ {ℓ} {T : Type ℓ} where
  -- A successful insertion: a key that was free holds the value, and no other key changes.
  pub record Inserted (s : Slab T) (val : T) (r : Outcome (ℕ × Slab T)) : Type ℓ where
    pub key : ℕ
    pub end : Slab T
    pub answers : r ≡ ok (key, end)
    pub valid : Inv end
    pub key_lt : key < 2 ^ 32
    pub was_free : view s key ≡ none
    pub now : (k : ℕ) → view end k ≡ (if key == k then some val else view s k)

  -- From page `i` on there is no room.
  abbrev pub FullFrom : ℕ → Slab T → Type ℓ
  FullFrom i s =
      (j : ℕ)
      → i ≤ j
      → j < num_pages
      → (p : Page T) × (get_elem? s.pages j ≡ some (some p)) × (Page.is_full p ≡ true)

  -- Writing into page `i`, which is `p` or is yet to be made as `p`.
  write-Inserted :
      (debug : Bool) (s : Slab T) (i : ℕ) (p : Page T) (val : T)
      → Inv s
      → i < num_pages
      → IsPage i p
      → ((k : ℕ) → get_page_id k ≡ i → view s k ≡ PageInv.view p (k - p.prev_len))
      → Page.is_full p ≡ false
      → (q : Page T) × (Page.alloc debug p ≡ ok (some p.next, q))
        × Inserted s val (write debug i s p.next q val)
  unfolding write
  write-Inserted debug s i p val inv h page same room = (
    st.mid,
    st.allocates,
    record {
      key = key;
      end = record (put_page s i st.end) { w_page_id = i };
      answers = rw (st.fills, st.base, wide);
      valid = record {
        count = length-set s.pages i (some st.end) ∙ inv.count;
        cursor = h;
        each = put.each;
      };
      key_lt = omega (arith, st.index_lt, page.size, page.base, size-le i h);
      was_free = same key found ∙ ap (PageInv.view p) back ∙ st.was_free;
      now = λ k. elim (Bool-cases (i == get_page_id k)) [
        | inl here ↦
            view-put s inv i st.end k h
            ∙ rw (
              here,
              st.base,
              st.now,
              matches k here,
              same k (sym ((==_iff i (get_page_id k)).0 here)),
            )
        | inr other ↦ view-put s inv i st.end k h ∙ rw (other, misses k other)
      ];
    },
  )
    where
      st : Stored debug p val
      st = alloc-Stored debug p page.free val page.valid room

      key : ℕ
      key = p.next + p.prev_len

      end : Slab T
      end = record (put_page s i st.end) { w_page_id = i }

      wide : ltb (p.next + p.prev_len) (2 ^ 64) ≡ true
      wide = lt→ltb key (2 ^ 64) (omega (arith, st.index_lt, page.size, page.base, size-le i h))

      back : key - p.prev_len ≡ p.next
      back = omega arith

      found : get_page_id key ≡ i
      found =
          let e : base_of i + p.next ≡ key = omega (arith, page.base) in
          rw (← e) (get_page_id-base i p.next h (omega (arith, st.index_lt, page.size)))

      matches : (k : ℕ) → (i == get_page_id k) ≡ true → (p.next == k - p.prev_len) ≡ (key == k)
      matches k here =
          let e : i ≡ get_page_id k = (==_iff i (get_page_id k)).0 here in
          let below : base_of i ≤ k = rw e (base_of-get_page_id k) in ground (arith, page.base)

      misses : (k : ℕ) → (i == get_page_id k) ≡ false → (key == k) ≡ false
      misses k other = elim (Bool-cases (key == k)) [
        | inl e ↦ let hit : get_page_id k ≡ i = rw (← (==_iff key k).0 e) found in ground arith
        | inr e ↦ e
      ]

      end_page : IsPage i st.end
      end_page = record {
        free = st.free;
        valid = st.valid;
        base = st.base ∙ page.base;
        size = st.size ∙ page.size;
      }

      put : Inv (put_page s i st.end)
      put = Inv-put s inv i st.end h end_page

  full-here :
      (i : ℕ) (s : Slab T) (p : Page T)
      → get_elem? s.pages i ≡ some (some p)
      → Page.is_full p ≡ true
      → FullFrom (i + 1) s
      → FullFrom i s
  full-here i s p e full rest j le lt = elim (Bool-cases (i == j)) [
    | inl same ↦ rw (← (==_iff i j).0 same) (p, e, full)
    | inr other ↦ rest j (ground arith) lt
  ]

  -- What a key of page `i` reads.
  looks :
      (s : Slab T) (i : ℕ) (o : Option (Option (Page T)))
      → get_elem? s.pages i ≡ o
      → (k : ℕ) → get_page_id k ≡ i
      → view s k ≡ held k o
  looks s i o e k g = ap (held k) (ap (get_elem? s.pages) g ∙ e)

  insert_from_lem :
      (debug : Bool) (n i : ℕ) (s : Slab T) (val : T)
      → Inv s
      → i + n ≡ num_pages
      → Inserted s val (insert_from debug n i s val)
        ⊎ ((insert_from debug n i s val ≡ panic) × FullFrom i s)
  unfolding insert_from
  insert_from_lem debug zero i s val inv e = inr (refl, λ j le lt. absurd (omega arith))
  insert_from_lem debug (suc n) i s val inv e = elim (place s inv i h) [
    | inl missing ↦
        let (page, room, nothing) = create-IsPage {T = T} i h in
        let (q, allocated, done) =
          write-Inserted debug s i (page_or_new i none) val inv h page
            (λ k g.
              looks s i (some none) missing k g
              ∙ sym (nothing (k - (page_or_new {T = T} i none).prev_len)))
            room in
        inl (rw (missing, allocated) done)
    | inr (p, there) ↦ elim (Bool-cases (Page.is_full p)) [
      | inl full ↦
          let page = inv.each i p there in
          let same : put_page s i p ≡ s =
            ap (λ ps. record s { pages = ps }) (set-get_elem? s.pages i (some p) there) in
          elim (insert_from_lem debug n (i + 1) s val inv (omega arith)) [
            | inl done ↦ inl (rw (there, alloc-full debug p page.free page.valid full, same) done)
            | inr (stuck, rest) ↦ inr (
              rw (there, alloc-full debug p page.free page.valid full, same) stuck,
              full-here i s p there full rest,
            )
          ]
      | inr room ↦
          let (q, allocated, done) =
            write-Inserted debug s i p val inv h (inv.each i p there)
              (looks s i (some (some p)) there) room in
          inl (rw (there, allocated) done)
    ]
  ]
    where
      h : i < num_pages
      h = omega arith

  -- In a valid slab `insert` either gives out a free key, which then holds the value while every
  -- other key keeps what it held, and leaves a valid slab, or it panics, and then every page from
  -- the cached write page on is full. No insertion is undefined behaviour, and no sum overflows.
  pub insert_lem :
      (debug : Bool) (s : Slab T) (val : T)
      → Inv s
      → Inserted s val (insert debug s val)
        ⊎ ((insert debug s val ≡ panic) × FullFrom s.w_page_id s)
  unfolding insert
  insert_lem debug s val inv =
      insert_from_lem debug (num_pages - s.w_page_id) s.w_page_id s val inv
        (omega (arith, inv.cursor))

  ok-snd : (r : Outcome (ℕ × Slab T)) (a b : ℕ × Slab T) → r ≡ ok a → r ≡ ok b → a.1 ≡ b.1
  ok-snd (ok x) a b e f = let g : x ≡ a = cc in let h : x ≡ b = cc in ap (λ y. y.1) (sym g ∙ h)
  ok-snd panic a b e f = cc
  ok-snd undefined a b e f = cc

  pub insert-Inv :
      (debug : Bool) (s : Slab T) (val : T) (key : ℕ) (end : Slab T)
      → Inv s
      → insert debug s val ≡ ok (key, end)
      → Inv end
  insert-Inv debug s val key end inv e = elim (insert_lem debug s val inv) [
    | inl done ↦
        subst Inv (ok-snd (insert debug s val) (done.key, done.end) (key, end) done.answers e)
          done.valid
    | inr (stuck, full) ↦
        let no_answer : ◌≡◌ {A = Outcome (ℕ × Slab T)} panic (ok (key, end)) = sym stuck ∙ e in cc
  ]
