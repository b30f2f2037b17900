-- ===== src/Memory/Objects/Laws.antt =====
-- The objects of symex/src/memory/object_memory.rs do not overlap, an address finds its object, and
-- what is written to an object is read back.
use symex.Common.{
  ℕ, ◌+◌, ◌*◌, ◌≤◌, ◌<◌, ◌≡◌, refl, sym, ◌∙◌, false, [], ◌∷◌, some, leb, ltb, leb→le, ◌⊎◌, ◌==◌,
  arith, Bool-cases, inl, inr, lt→ltb, le→leb, ==_of_eq,
}
use symex.Smt.Boolector.{Boolector}
use symex.Memory.Objects.{MemoryObject, Objects, ObjectMemory, insert_object, closest}

module _ ⦃b : Boolector⦄ where
  -- The objects below `top`, the highest first, each with a value of its size, without overlap.
  unfoldable pub Laid : ℕ → Objects → Type 0
  Laid top [] = Unit
  Laid top ((key, object) ∷ objects) =
      (object.address ≡ key)
      × (b.width object.bv ≡ object.size)
      × (0 < object.size)
      × (8 * key + object.size ≤ 8 * top)
      × Laid key objects

  -- They are laid out below the cursor.
  abbrev pub IsLaid : ObjectMemory → Type 0
  IsLaid m = Laid m.allocator.cursor m.objects

  pub insert_object-top :
      (key top : ℕ) (new : MemoryObject) (objects : Objects)
      → top ≤ key
      → Laid top objects
      → insert_object key new objects ≡ (key, new) ∷ objects
  unfolding insert_object Laid
  insert_object-top key top new [] h laid = refl
  insert_object-top key top new ((other, object) ∷ objects) h (_, _, pos, fits, _) =
      rw (lt→ltb other key (omega arith)) refl

  -- The place of the object that an address finds.
  unfoldable pub At : ℕ → ℕ → MemoryObject → Objects → Type 0
  At address key object [] = ⊥
  At address key object ((k, o) ∷ objects) =
      ((k ≡ key) × (o ≡ object) × (key ≤ address)) ⊎ (address < k) × At address key object objects

  pub closest→At :
      (address key : ℕ) (object : MemoryObject) (objects : Objects)
      → closest address objects ≡ some (key, object)
      → At address key object objects
  unfolding closest At
  closest→At address key object [] h = cc
  closest→At address key object ((k, o) ∷ objects) h = elim (Bool-cases (leb k address)) [
    | inl t ↦
        let same : some (k, o) ≡ some (key, object) = rw t at h in
        let k_key : k ≡ key = cc in
        let o_object : o ≡ object = cc in inl (k_key, o_object, rw (← k_key) (leb→le k address t))
    | inr t ↦ inr (ground arith, closest→At address key object objects (rw t at h))
  ]

  pub At→closest :
      (address key : ℕ) (object : MemoryObject) (objects : Objects)
      → At address key object objects
      → closest address objects ≡ some (key, object)
  unfolding closest At
  At→closest address key object [] at = absurd at
  At→closest address key object ((k, o) ∷ objects) (inl (p, q, h)) =
      rw (le→leb k address (rw p h)) (rw (p, q) refl)
  At→closest address key object ((k, o) ∷ objects) (inr (h, rest)) =
      let t : leb k address ≡ false = ground arith in
      rw t (At→closest address key object objects rest)

  -- What is known of an object that an address finds.
  pub record IsObject (top address key : ℕ) (object : MemoryObject) : Type 0 where
    pub at_key : object.address ≡ key
    pub has_width : b.width object.bv ≡ object.size
    pub some_bits : 0 < object.size
    pub below : 8 * key + object.size ≤ 8 * top
    pub reached : key ≤ address

  pub At-IsObject :
      (top address key : ℕ) (object : MemoryObject) (objects : Objects)
      → Laid top objects
      → At address key object objects
      → IsObject top address key object
  unfolding At Laid
  At-IsObject top address key object [] laid at = absurd at
  At-IsObject top address key object ((k, o) ∷ objects) laid (inl (p, q, h)) = record {
    at_key = rw (← p, ← q) laid.0;
    has_width = rw (← q) laid.1;
    some_bits = rw (← q) laid.2;
    below = rw (← p, ← q) laid.3;
    reached = h;
  }
  At-IsObject top address key object ((k, o) ∷ objects) laid (inr (h, rest)) =
      let r = At-IsObject k address key object objects laid.4 rest in
      record {
        at_key = r.at_key;
        has_width = r.has_width;
        some_bits = r.some_bits;
        below = omega (arith, r.below, laid.3, laid.2);
        reached = r.reached;
      }

  insert_object-here :
      (key k : ℕ) (new o : MemoryObject) (objects : Objects)
      → k ≡ key
      → insert_object key new ((k, o) ∷ objects) ≡ (key, new) ∷ objects
  unfolding insert_object
  insert_object-here key k new o objects p =
      let less : ltb k key ≡ false = ground arith in rw (insert_object, less, ==_of_eq k key p) refl

  insert_object-beyond :
      (key k : ℕ) (new o : MemoryObject) (objects : Objects)
      → key < k
      → insert_object key new ((k, o) ∷ objects) ≡ (k, o) ∷ insert_object key new objects
  unfolding insert_object
  insert_object-beyond key k new o objects h =
      let less : ltb k key ≡ false = ground arith in
      let differ : (k == key) ≡ false = ground arith in rw (insert_object, less, differ) refl

  -- Another value of the same size at its place.
  pub replace-Laid :
      (top address key : ℕ) (object new : MemoryObject) (objects : Objects)
      → Laid top objects
      → At address key object objects
      → new.address ≡ key
      → new.size ≡ object.size
      → b.width new.bv ≡ object.size
      → Laid top (insert_object key new objects)
  unfolding At Laid insert_object
  replace-Laid top address key object new [] laid at e1 e2 e3 = absurd at
  replace-Laid top address key object new ((k, o) ∷ objects) laid (inl (p, q, h)) e1 e2 e3 =
      rw (insert_object-here key k new o objects p)
        (e1, e3 ∙ sym e2, rw (e2, ← q) laid.2, rw (e2, ← q, ← p) laid.3, rw (← p) laid.4)
  replace-Laid top address key object new ((k, o) ∷ objects) laid (inr (h, rest)) e1 e2 e3 =
      let r = At-IsObject k address key object objects laid.4 rest in
      rw (insert_object-beyond key k new o objects (omega (arith, h, r.reached))) (
        laid.0,
        laid.1,
        laid.2,
        laid.3,
        replace-Laid k address key object new objects laid.4 rest e1 e2 e3,
      )

  -- Where it is found, and what every other address finds.
  pub closest-replaced :
      (top address key asked : ℕ) (object new : MemoryObject) (objects : Objects)
      → Laid top objects
      → At address key object objects
      → (At asked key object objects
          × (closest asked (insert_object key new objects) ≡ some (key, new)))
        ⊎ (closest asked (insert_object key new objects) ≡ closest asked objects)
  unfolding At Laid closest
  closest-replaced top address key asked object new [] laid at = absurd at
  closest-replaced top address key asked object new ((k, o) ∷ objects) laid (inl (p, q, h)) =
      elim (Bool-cases (leb key asked)) [
        | inl t ↦
            inl (
              inl (p, q, leb→le key asked t),
              rw (insert_object-here key k new o objects p, t) refl,
            )
        | inr t ↦ inr (rw (insert_object-here key k new o objects p, t, p, t) refl)
      ]
  closest-replaced top address key asked object new ((k, o) ∷ objects) laid (inr (h, rest)) =
      let r = At-IsObject k address key object objects laid.4 rest in
      let place = insert_object-beyond key k new o objects (omega (arith, h, r.reached)) in
      elim (Bool-cases (leb k asked)) [
        | inl t ↦ inr (rw (place, t) refl)
        | inr t ↦ elim (closest-replaced k address key asked object new objects laid.4 rest) [
          | inl (at, q) ↦ inl (inr (ground arith, at), rw (place, t) q)
          | inr q ↦ inr (rw (place, t) q)
        ]
      ]

  pub closest-replacement :
      (top asked key : ℕ) (object new : MemoryObject) (objects : Objects)
      → Laid top objects
      → At asked key object objects
      → closest asked (insert_object key new objects) ≡ some (key, new)
  unfolding At Laid closest
  closest-replacement top asked key object new [] laid at = absurd at
  closest-replacement top asked key object new ((k, o) ∷ objects) laid (inl (p, q, h)) =
      rw (insert_object-here key k new o objects p, le→leb key asked h) refl
  closest-replacement top asked key object new ((k, o) ∷ objects) laid (inr (h, rest)) =
      let r = At-IsObject k asked key object objects laid.4 rest in
      let beyond : leb k asked ≡ false = ground arith in
      rw (insert_object-beyond key k new o objects (omega (arith, h, r.reached)), beyond)
        (closest-replacement k asked key object new objects laid.4 rest)

  -- Every address inside an object finds it.
  pub At-inside :
      (top key asked : ℕ) (object : MemoryObject) (objects : Objects)
      → Laid top objects
      → At key key object objects
      → key ≤ asked
      → 8 * asked < 8 * key + object.size
      → At asked key object objects
  unfolding At Laid
  At-inside top key asked object [] laid at h inside = absurd at
  At-inside top key asked object ((k, o) ∷ objects) laid (inl (p, q, _)) h inside = inl (p, q, h)
  At-inside top key asked object ((k, o) ∷ objects) laid (inr (_, rest)) h inside =
      let r = At-IsObject k key key object objects laid.4 rest in
      inr
        (omega (arith, r.below, inside), At-inside k key asked object objects laid.4 rest h inside)

  pub Laid-mono :
      (top above : ℕ) (objects : Objects) → top ≤ above → Laid top objects → Laid above objects
  unfolding Laid
  Laid-mono top above [] h laid = tt
  Laid-mono top above ((k, o) ∷ objects) h laid =
      (laid.0, laid.1, laid.2, omega (arith, laid.3, h), laid.4)
