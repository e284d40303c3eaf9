-- ===== src/Threads/Joined.antt =====
-- The life of the connector of `main` (src/Connector.cpp, src/PollerBridge.cpp, src/ProcessorBridge.cpp):
-- every thread is joined, every clone is deleted.
use csv_to_kafka_using_cpp.Prelude.{
  ℕ, ◌+◌, true, some, List, [], ◌∷◌, ◌++◌, ◌≡◌, refl, sym, ap, ◌∙◌, subst, map, length, append-nil,
  append_assoc,
}
use csv_to_kafka_using_cpp.Threads.{
  Heap, ThreadPtr, no_thread, joined, Bridge, started, joined_with, wrap, copy_bridge, start, join,
  destroy, copy_all, destroy_all, Owner, construct, start_and_join, destroy_owner, life,
}
use csv_to_kafka_using_cpp.Threads.Clones.{
  from, bridges, below, all_live, is_live-append, is_live_last, all_live-append, below_later,
  heap_eq, copy_bridge_live, copy_all_new, destroy_new, destroy_all_new, start_all, join_all,
  below_next, below_far, regroup, length-bridges, from_live,
}

module _ (processors : List Bridge) (h : Heap) (old : below h.next h.live ≡ true)
    (there : all_live h.live processors ≡ true) where
  abbrev pub n : ℕ
  n = length processors

  -- The address of the connector's poller; those of its processors follow.
  abbrev pub first : ℕ
  first = h.next + 1 + n

  abbrev owner : ThreadPtr → Owner
  owner t = record {
    m_poller = record { m_ptr = first; m_t = t };
    m_processors = bridges t (from (first + 1) n);
  }

  -- The heap with the clones of the connector.
  abbrev with_owner : Heap
  with_owner = record { next = first + 1 + n; live = h.live ++ first ∷ from (first + 1) n }

  abbrev parameters : List ℕ
  parameters = from (h.next + 1) n

  abbrev whole : Heap
  whole = record {
    next = first + 1 + n;
    live = h.live ++ h.next ∷ [] ++ parameters ++ first ∷ [] ++ from (first + 1) n;
  }

  deleted_parameters :
      destroy_all (bridges no_thread parameters) whole
      ≡ some (record {
        next = first + 1 + n;
        live = h.live ++ h.next ∷ [] ++ first ∷ from (first + 1) n;
      })
  deleted_parameters =
      ap (destroy_all (bridges no_thread parameters))
        (heap_eq refl (regroup (h.live ++ h.next ∷ []) parameters (from (first + 1) n) first))
      ∙ destroy_all_new no_thread (h.next + 1) n (first + 1 + n) (h.live ++ h.next ∷ [])
          (first ∷ from (first + 1) n) (λ e. cc) (below_next h.next h.live old)

  deleted_poller :
      destroy
        (record { m_ptr = h.next; m_t = no_thread })
        (record {
          next = first + 1 + n;
          live = h.live ++ h.next ∷ [] ++ first ∷ from (first + 1) n;
        })
      ≡ some with_owner
  deleted_poller =
      ap (destroy (record { m_ptr = h.next; m_t = no_thread }))
        (heap_eq refl (append_assoc h.live (h.next ∷ []) (first ∷ from (first + 1) n)))
      ∙ destroy_new no_thread h.next (first + 1 + n) h.live (first ∷ from (first + 1) n) (λ e. cc)
          old

  processors_copied :
      copy_all processors (wrap h).1
      ≡ some (
        bridges no_thread parameters,
        record { next = first; live = h.live ++ h.next ∷ [] ++ parameters },
      )
  processors_copied =
      copy_all_new processors (wrap h).1 (all_live-append processors h.live (h.next ∷ []) there)

  poller_copied :
      copy_bridge (wrap h).0 (record { next = first; live = h.live ++ h.next ∷ [] ++ parameters })
      ≡ some (wrap (record { next = first; live = h.live ++ h.next ∷ [] ++ parameters }))
  poller_copied =
      copy_bridge_live (wrap h).0 _
        (is_live-append h.next (h.live ++ h.next ∷ []) parameters (is_live_last h.next h.live []))

  members_copied :
      copy_all
        (bridges no_thread parameters)
        (record { next = first + 1; live = h.live ++ h.next ∷ [] ++ parameters ++ first ∷ [] })
      ≡ some (bridges no_thread (from (first + 1) n), whole)
  members_copied =
      let now : Heap = record {
        next = first + 1;
        live = h.live ++ h.next ∷ [] ++ parameters ++ first ∷ [];
      } in
      subst
        (λ (k : ℕ).
          copy_all (bridges no_thread parameters) now
          ≡ some (
            bridges no_thread (from (first + 1) k),
            record { next = first + 1 + k; live = now.live ++ from (first + 1) k },
          ))
        (length-bridges no_thread (h.next + 1) n)
        (copy_all_new (bridges no_thread parameters) now (
          subst (λ (l : List ℕ). all_live l (bridges no_thread parameters) ≡ true)
            (sym (append_assoc (h.live ++ h.next ∷ []) parameters (first ∷ [])))
            (from_live no_thread (h.next + 1) n (h.live ++ h.next ∷ []) (first ∷ []))))

  construct_new : construct processors h ≡ some (owner no_thread, with_owner)
  unfolding construct
  construct_new =
      rw processors_copied
        (rw poller_copied (rw members_copied (rw deleted_parameters (rw deleted_poller refl))))

  start_and_join_new :
      start_and_join (owner no_thread)
      ≡ some (
        owner joined,
        started first
            ∷ (map started (from (first + 1) n)
                ++ joined_with first ∷ map joined_with (from (first + 1) n)),
      )
  unfolding start_and_join start join
  start_and_join_new = rw (start_all (from (first + 1) n)) (rw (join_all (from (first + 1) n)) refl)

  below_owner : below first h.live ≡ true
  below_owner = below_far (h.next + 1) n h.live (below_later h.next h.live old)

  deleted_processors :
      destroy_all (bridges joined (from (first + 1) n)) with_owner
      ≡ some (record { next = first + 1 + n; live = h.live ++ first ∷ [] })
  deleted_processors =
      ap (destroy_all (bridges joined (from (first + 1) n))) (
        heap_eq refl (
          ap (λ (l : List ℕ). h.live ++ first ∷ l) (sym (append-nil (from (first + 1) n)))
          ∙ sym (append_assoc h.live (first ∷ []) (from (first + 1) n ++ []))))
      ∙ destroy_all_new joined (first + 1) n (first + 1 + n) (h.live ++ first ∷ []) [] (λ e. cc)
          (below_next first h.live below_owner)
      ∙ ap some (heap_eq refl (append-nil (h.live ++ first ∷ [])))

  destroy_owner_new :
      destroy_owner (owner joined) with_owner
      ≡ some (record { next = first + 1 + n; live = h.live })
  unfolding destroy_owner
  destroy_owner_new = rw deleted_processors (
      destroy_new joined first (first + 1 + n) h.live [] (λ e. cc) below_owner
      ∙ ap some (heap_eq refl (append-nil h.live)))

  -- The whole life of the connector, from a heap whose addresses are below the next one and has the
  -- objects of the given processors: nothing is used after it was deleted or deleted twice, and no
  -- thread that can be joined is destroyed. All threads are started before one is joined, and each is
  -- joined once; each has its own clone, that no one had before. In the end the heap is as it was.
  pub life_joined :
      life processors h
      ≡ some (
        started first
            ∷ (map started (from (first + 1) n)
                ++ joined_with first ∷ map joined_with (from (first + 1) n)),
        record { next = first + 1 + n; live = h.live },
      )
  unfolding life
  life_joined = rw construct_new (rw start_and_join_new (rw destroy_owner_new refl))
