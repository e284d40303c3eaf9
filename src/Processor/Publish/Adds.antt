-- ===== src/Processor/Publish/Adds.antt =====
-- How many messages a part of `CsvProcessor::publish` (src/impl/CsvProcessor.cpp) appends, put together
-- from its parts.
use csv_to_kafka_using_cpp.Prelude.{
  ℕ, ◌+◌, ◌≤◌, Bool, true, false, Option, none, some, List, [], ◌++◌, ◌≡◌, refl, sym, ap, ◌∙◌,
  arith, if◌then◌else◌, append_assoc, append-nil, length, length-append,
}
use csv_to_kafka_using_cpp.Prelude.Result.{Result, ok, throws, undefined}
use csv_to_kafka_using_cpp.Processor.State.{
  Message, Library, World, Outcome, value, raised, crashed, waiting, M, continue, ◌>>=◌, lift,
}

module _ (library : Library) where
  -- At most `n` messages are appended to those that the producer has taken.
  pub record Adds (n : ℕ) (w w' : World library) : Type 0 where
    pub more : List Message
    pub appended : w'.produced ≡ w.produced ++ more
    pub few : length more ≤ n

  -- So does a computation, from every state.
  pub record DoesAdd {A : Type 0} (n : ℕ) (m : M (World library) A) : Type 0 where
    pub adds : (w : World library) → Adds n w (m w).0

  pub Adds-none : (n : ℕ) (w w' : World library) → w'.produced ≡ w.produced → Adds n w w'
  Adds-none n w w' e = record {
    more = [];
    appended = e ∙ sym (append-nil w.produced);
    few = omega arith;
  }

  pub Adds-trans : (a b : ℕ) (u v w : World library) → Adds a u v → Adds b v w → Adds (a + b) u w
  Adds-trans a b u v w p q = record {
    more = p.more ++ q.more;
    appended =
        q.appended ∙ ap (λ x. x ++ q.more) p.appended ∙ append_assoc u.produced p.more q.more;
    few = omega (arith, length-append p.more q.more, p.few, q.few);
  }

  pub Adds-weaken : (a b : ℕ) (u v : World library) → Adds a u v → a ≤ b → Adds b u v
  Adds-weaken a b u v p h = record {
    more = p.more;
    appended = p.appended;
    few = omega (arith, p.few);
  }

module _ (library : Library) {A B : Type 0} where
  pub DoesAdd-continue :
      (a b : ℕ) (w : World library) (r : World library × Outcome A) (f : A → M (World library) B)
      → Adds library a w r.0
      → ((x : A) → DoesAdd library b (f x))
      → Adds library (a + b) w (continue r f).0
  DoesAdd-continue a b w (v, value x) f p q = Adds-trans library a b w v _ p ((q x).adds v)
  DoesAdd-continue a b w (v, raised e) f p q = Adds-weaken library a (a + b) w v p (omega arith)
  DoesAdd-continue a b w (v, crashed) f p q = Adds-weaken library a (a + b) w v p (omega arith)
  DoesAdd-continue a b w (v, waiting) f p q = Adds-weaken library a (a + b) w v p (omega arith)

  pub DoesAdd->>= :
      (a b : ℕ) (m : M (World library) A) (f : A → M (World library) B)
      → DoesAdd library a m
      → ((x : A) → DoesAdd library b (f x))
      → DoesAdd library (a + b) (m >>= f)
  DoesAdd->>= a b m f p q = record { adds = λ w. DoesAdd-continue a b w (m w) f (p.adds w) q }

module _ (library : Library) {A : Type 0} where
  pub DoesAdd-lift : (r : Result A) → DoesAdd library {A = A} 0 (lift r)
  DoesAdd-lift (ok a) = record { adds = λ w. Adds-none library 0 w w refl }
  DoesAdd-lift (throws e) = record { adds = λ w. Adds-none library 0 w w refl }
  DoesAdd-lift undefined = record { adds = λ w. Adds-none library 0 w w refl }

  pub DoesAdd-weaken :
      (a b : ℕ) (m : M (World library) A) → DoesAdd library a m → a ≤ b → DoesAdd library b m
  DoesAdd-weaken a b m p h = record { adds = λ w. Adds-weaken library a b w (m w).0 (p.adds w) h }

  pub DoesAdd-if :
      (b : Bool) (n : ℕ) (m k : M (World library) A)
      → DoesAdd library n m
      → DoesAdd library n k
      → DoesAdd library n (if b then m else k)
  DoesAdd-if true n m k p q = p
  DoesAdd-if false n m k p q = q

module _ (library : Library) {A B : Type 0} where
  pub DoesAdd-elim :
      (o : Option A) (n : ℕ) (m : M (World library) B) (k : A → M (World library) B)
      → DoesAdd library n m
      → ((a : A) → DoesAdd library n (k a))
      → DoesAdd library n (elim o [ none ↦ m | some a ↦ k a ])
  DoesAdd-elim none n m k p q = p
  DoesAdd-elim (some a) n m k p q = q a
