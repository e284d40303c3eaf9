-- ===== src/ResultContainer.antt =====
-- src/ResultContainer.h: copy and swap, with objects at addresses. The move constructor calls a constructor
-- with no argument, which the class does not have, so it is left out.
use csv_to_kafka_using_cpp.Prelude.{ℕ, ◌≡◌, ◌≢◌, ◌==◌, if◌then◌else◌, arith}
use csv_to_kafka_using_cpp.Prelude.Text.{Text}

module _ (Container : Type 0) where
  pub record ResultContainer : Type 0 where
    pub m_reference : Text
    pub m_data : Container

module _ (Container : Type 0) where
  -- The objects there are.
  abbrev pub Store : Type 0
  Store = ℕ → ResultContainer Container

  unfoldable put : ℕ → ResultContainer Container → Store → Store
  put address object objects a = if a == address then object else objects a

  -- The copy constructor: `this` is made.
  unfoldable pub copy_construct : ℕ → ℕ → Store → Store
  unfolding put
  copy_construct this other objects =
      put this
        (record { m_reference = (objects other).m_reference; m_data = (objects other).m_data })
        objects

  -- The friend function `swap`: the references, then the data.
  unfoldable pub swap : ℕ → ℕ → Store → Store
  unfolding put
  swap first second objects =
      let reference = (objects first).m_reference in
      let one =
        put first (record (objects first) { m_reference = (objects second).m_reference }) objects in
      let two = put second (record (one second) { m_reference = reference }) one in
      let data' = (two first).m_data in
      let three = put first (record (two first) { m_data = (two second).m_data }) two in
      put second (record (three second) { m_data = data' }) three

  -- `operator=` with a copy, whose object is at an address of its own.
  unfoldable pub copy_assign : ℕ → ℕ → ℕ → Store → Store
  unfolding copy_construct swap
  copy_assign this other temporary objects =
      swap this temporary (copy_construct temporary other objects)

  -- `operator=` with a moved object.
  unfoldable pub move_assign : ℕ → ℕ → Store → Store
  unfolding swap
  move_assign this other = swap this other

  -- An assignment by copy, to itself too, gives the object what the other has, and changes no other
  -- object but the temporary one.
  copy_assign_copies :
      (this other temporary : ℕ) (objects : Store)
      → this ≢ temporary
      → (copy_assign this other temporary objects this ≡ objects other)
        × ((a : ℕ)
            → a ≢ this
            → a ≢ temporary
            → copy_assign this other temporary objects a ≡ objects a)
  unfolding copy_assign copy_construct swap put
  copy_assign_copies this other temporary objects d = (ground arith, λ a e f. ground arith)

  -- An assignment of a moved object swaps the two, and does nothing to an object that is moved to itself.
  move_assign_swaps :
      (this other : ℕ) (objects : Store)
      → (move_assign this other objects this ≡ objects other)
        × (move_assign this other objects other ≡ objects this)
  unfolding move_assign swap put
  move_assign_swaps this other objects = (ground arith, ground arith)
