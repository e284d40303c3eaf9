-- ===== src/Threads/Clones.antt =====
-- Clones at new addresses, and their deletion (src/PollerBridge.cpp, src/ProcessorBridge.cpp).
use csv_to_kafka_using_cpp.Prelude.{
  ℕ, zero, suc, ◌+◌, Bool, true, false, some, List, [], ◌∷◌, ◌++◌, ◌≡◌, ◌≢◌, refl, sym, ap, ◌∙◌,
  subst, arith, map, all, all-append, length, ltb, append-nil, append_assoc, ◌==◌,
}
use csv_to_kafka_using_cpp.Threads.{
  Heap, is_live, remove, delete_object, ThreadPtr, no_thread, joinable, joined, release, Bridge,
  started, joined_with, wrap, copy_bridge, start, join, destroy, copy_all, for_all, destroy_all,
}

-- `n` addresses, one after the other.
abbrev pub from : ℕ → ℕ → List ℕ
from i zero = []
from i (suc n) = i ∷ from (i + 1) n

abbrev pub bridges : ThreadPtr → List ℕ → List Bridge
bridges t addresses = map (λ (a : ℕ). record { m_ptr = a; m_t = t }) addresses

abbrev pub below : ℕ → List ℕ → Bool
below i xs = all (λ x. ltb x i) xs

abbrev pub all_live : List ℕ → List Bridge → Bool
all_live live bs = all (λ (b : Bridge). is_live b.m_ptr live) bs

pub is_live-append : (a : ℕ) (xs ys : List ℕ) → is_live a xs ≡ true → is_live a (xs ++ ys) ≡ true
unfolding is_live
is_live-append a [] ys h = cc
is_live-append a (x ∷ xs) ys h = ground (arith, is_live-append a xs ys)

pub is_live_last : (a : ℕ) (xs ys : List ℕ) → is_live a (xs ++ a ∷ ys) ≡ true
unfolding is_live
is_live_last a [] ys = ground arith
is_live_last a (x ∷ xs) ys = ground (arith, is_live_last a xs ys)

pub all_live-append :
    (bs : List Bridge) (xs ys : List ℕ) → all_live xs bs ≡ true → all_live (xs ++ ys) bs ≡ true
all_live-append [] xs ys h = refl
all_live-append (b ∷ bs) xs ys h =
    ground (arith, is_live-append b.m_ptr xs ys, all_live-append bs xs ys)

-- A new address is not among those before it.
pub remove_new :
    (a : ℕ) (xs ys : List ℕ) → below a xs ≡ true → remove a (xs ++ a ∷ ys) ≡ some (xs ++ ys)
unfolding remove
remove_new a [] ys h = ground arith
remove_new a (x ∷ xs) ys h =
    let ne : (a == x) ≡ false = ground arith in
    let rest : below a xs ≡ true = ground arith in rw (ne, remove_new a xs ys rest) refl

pub below_later : (i : ℕ) (xs : List ℕ) → below i xs ≡ true → below (i + 1) xs ≡ true
below_later i [] h = refl
below_later i (x ∷ xs) h = ground (arith, below_later i xs)

pub heap_eq :
    {n m : ℕ} {xs ys : List ℕ}
    → n ≡ m
    → xs ≡ ys
    → ◌≡◌ {A = Heap} (record { next = n; live = xs }) (record { next = m; live = ys })
heap_eq {m} {xs} e f =
    ap (λ (k : ℕ). record { next = k; live = xs }) e
    ∙ ap (λ (l : List ℕ). record { next = m; live = l }) f

pub copy_bridge_live :
    (b : Bridge) (h : Heap) → is_live b.m_ptr h.live ≡ true → copy_bridge b h ≡ some (wrap h)
unfolding copy_bridge
copy_bridge_live b h l = rw l refl

pub copy_all_new :
    (bs : List Bridge) (h : Heap)
    → all_live h.live bs ≡ true
    → copy_all bs h
      ≡ some (
        bridges no_thread (from h.next (length bs)),
        record { next = h.next + length bs; live = h.live ++ from h.next (length bs) },
      )
unfolding copy_all copy_bridge
copy_all_new [] h l =
    ap (λ (x : Heap). some ([], x)) (heap_eq (omega arith) (sym (append-nil h.live)))
copy_all_new (b ∷ bs) h l =
    let first : is_live b.m_ptr h.live ≡ true = ground arith in
    let rest : all_live h.live bs ≡ true = ground arith in
    let later = copy_all_new bs (wrap h).1 (all_live-append bs h.live (h.next ∷ []) rest) in
    rw (copy_bridge_live b h first) (
      rw later (
        ap (λ (x : Heap). some (bridges no_thread (from h.next (suc (length bs))), x))
          (heap_eq (omega arith)
            (append_assoc h.live (h.next ∷ []) (from (h.next + 1) (length bs))))))

pub release_none : (t : ThreadPtr) → t ≢ joinable → release t ≡ some tt
release_none no_thread u = refl
release_none joinable u = elim (u refl) [ ]
release_none joined u = refl

pub destroy_new :
    (t : ThreadPtr) (i next : ℕ) (xs ys : List ℕ)
    → t ≢ joinable
    → below i xs ≡ true
    → destroy (record { m_ptr = i; m_t = t }) (record { next = next; live = xs ++ i ∷ ys })
      ≡ some (record { next = next; live = xs ++ ys })
unfolding destroy delete_object
destroy_new t i next xs ys u b = rw (remove_new i xs ys b, release_none t u) refl

pub destroy_all_new :
    (t : ThreadPtr) (i n next : ℕ) (xs ys : List ℕ)
    → t ≢ joinable
    → below i xs ≡ true
    → destroy_all (bridges t (from i n)) (record { next = next; live = xs ++ (from i n ++ ys) })
      ≡ some (record { next = next; live = xs ++ ys })
unfolding destroy_all destroy delete_object
destroy_all_new t i zero next xs ys u b = refl
destroy_all_new t i (suc n) next xs ys u b =
    rw (destroy_new t i next xs (from (i + 1) n ++ ys) u b)
      (destroy_all_new t (i + 1) n next xs ys u (below_later i xs b))

pub start_all :
    (ids : List ℕ)
    → for_all start (bridges no_thread ids) ≡ some (bridges joinable ids, map started ids)
unfolding for_all start
start_all [] = refl
start_all (a ∷ ids) = rw (start_all ids) refl

pub join_all :
    (ids : List ℕ)
    → for_all join (bridges joinable ids) ≡ some (bridges joined ids, map joined_with ids)
unfolding for_all join
join_all [] = refl
join_all (a ∷ ids) = rw (join_all ids) refl

pub below_next : (i : ℕ) (xs : List ℕ) → below i xs ≡ true → below (i + 1) (xs ++ i ∷ []) ≡ true
below_next i xs h = all-append (λ x. ltb x (i + 1)) xs (i ∷ []) (below_later i xs h) (ground arith)

pub below_far : (i k : ℕ) (xs : List ℕ) → below i xs ≡ true → below (i + k) xs ≡ true
below_far i k [] h = refl
below_far i k (x ∷ xs) h = ground (arith, below_far i k xs)

-- The lists of the addresses while the connector is made, in the shape in which they are deleted.
pub regroup : (xs ys zs : List ℕ) (j : ℕ) → xs ++ ys ++ j ∷ [] ++ zs ≡ xs ++ (ys ++ (j ∷ zs))
regroup xs ys zs j = append_assoc (xs ++ ys) (j ∷ []) zs ∙ append_assoc xs ys (j ∷ zs)

pub length-bridges : (t : ThreadPtr) (i n : ℕ) → length (bridges t (from i n)) ≡ n
length-bridges t i zero = refl
length-bridges t i (suc n) = omega (arith, length-bridges t (i + 1) n)

pub from_live :
    (t : ThreadPtr) (i n : ℕ) (xs ys : List ℕ)
    → all_live (xs ++ (from i n ++ ys)) (bridges t (from i n)) ≡ true
from_live t i zero xs ys = refl
from_live t i (suc n) xs ys =
    let first = is_live_last i xs (from (i + 1) n ++ ys) in
    let rest =
      subst (λ (l : List ℕ). all_live l (bridges t (from (i + 1) n)) ≡ true)
        (append_assoc xs (i ∷ []) (from (i + 1) n ++ ys))
        (from_live t (i + 1) n (xs ++ i ∷ []) ys) in
    ground (arith, first, rest)
