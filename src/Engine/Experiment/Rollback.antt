-- ===== src/Engine/Experiment/Rollback.antt =====
-- An experiment leaves nothing behind: no index, no open transaction, no connection.
use queryforge.Prelude.{ℕ, suc, ◌≡◌, refl, ◌∙◌, true, false, Bytes}
use queryforge.Engine.{Outcome, done, fault}
use queryforge.Engine.Experiment.{
  Driver, Action, and_then, and_then_wrapped, deferred_release, deferred_rollback, create_prefix,
  with_hypothetical_index, read_only,
}
use queryforge.Engine.Experiment.Laws.{
  View, Looks, Yields, is_plain, IsTransactional, IsInside, answers, asks,
}

module _ {A E C : Type 0} (d : Driver E) (w : View E C) (laws : IsTransactional d w) where
  -- What is run inside the transaction leaves it open and commits nothing.
  abbrev StaysInside : Action A E → Type 0
  StaysInside fn = (e : E) → w.in_tx e ≡ true → Looks w e (w.lent e) true (fn e).1

  then_inside :
      (a e : E) (n : ℕ) (r : Outcome (Unit {0}) × E) (fn : Action A E)
      → Looks w a n true e
      → Yields w e (w.lent e) true (w.lent e) true r
      → ((b : E) → Looks w a n true b → Looks w a n true (fn b).1)
      → Looks w a n true (and_then d r fn).1
  then_inside a e n (done u, b) fn at y next = next b (record {
    lends = y.lends ∙ at.lends;
    tx_state = y.tx_state;
    committed = y.committed ∙ at.committed;
  })
  then_inside a e n (fault t, b) fn at y next = record {
    lends = y.lends ∙ at.lends;
    tx_state = y.tx_state;
    committed = y.committed ∙ at.committed;
  }

  then_inside_wrapped :
      (prefix : Bytes) (a e : E) (n : ℕ) (r : Outcome (Unit {0}) × E) (fn : Action A E)
      → Looks w a n true e
      → Yields w e (w.lent e) true (w.lent e) true r
      → ((b : E) → Looks w a n true b → Looks w a n true (fn b).1)
      → Looks w a n true (and_then_wrapped d prefix r fn).1
  then_inside_wrapped prefix a e n (done u, b) fn at y next = next b (record {
    lends = y.lends ∙ at.lends;
    tx_state = y.tx_state;
    committed = y.committed ∙ at.committed;
  })
  then_inside_wrapped prefix a e n (fault t, b) fn at y next = record {
    lends = y.lends ∙ at.lends;
    tx_state = y.tx_state;
    committed = y.committed ∙ at.committed;
  }

  -- The frame that both methods share: acquire, begin, a body inside, rollback, release.
  framed :
      (start : Action (Unit {0}) E) (body : Action A E) (e : E)
      → ((b : E) → Yields w b (w.lent b) true (w.lent b) (w.in_tx b) (start b))
      → w.in_tx e ≡ false
      → ((b : E) → Looks w e (suc (w.lent e)) true b → Looks w e (suc (w.lent e)) true (body b).1)
      → Looks w e
          (w.lent e)
          false
          (and_then d
            (d.acquire e)
            λ e1. deferred_release d (and_then d (start e1) λ e2. deferred_rollback d (body e2))).1
  framed start body e starts idle stays = acquired (d.acquire e) (laws.acquires e)
    where
      released :
          (b : E) → Looks w e (suc (w.lent e)) false b → Looks w e (w.lent e) false (d.release b)
      released b p =
          let q = laws.releases b (w.lent e) p.lends in
          record {
            lends = q.lends;
            tx_state = q.tx_state ∙ p.tx_state;
            committed = q.committed ∙ p.committed;
          }

      rolled :
          (b : E)
          → Looks w e (suc (w.lent e)) true b
          → Looks w e (suc (w.lent e)) false (d.rollback b)
      rolled b p =
          let q = laws.rolls_back b in
          record {
            lends = q.lends ∙ p.lends;
            tx_state = q.tx_state;
            committed = q.committed ∙ p.committed;
          }

      begun :
          (b : E) (r : Outcome (Unit {0}) × E)
          → Looks w e (suc (w.lent e)) false b
          → Yields w b (w.lent b) true (w.lent b) (w.in_tx b) r
          → Looks w e
              (w.lent e)
              false
              (deferred_release d (and_then d r λ e2. deferred_rollback d (body e2))).1
      begun b (done u, c) p y = released (d.rollback (body c).1) (
          rolled (body c).1 (
            stays c (record {
              lends = y.lends ∙ p.lends;
              tx_state = y.tx_state;
              committed = y.committed ∙ p.committed;
            })))
      begun b (fault t, c) p y = released c (record {
        lends = y.lends ∙ p.lends;
        tx_state = y.tx_state ∙ p.tx_state;
        committed = y.committed ∙ p.committed;
      })

      acquired :
          (r : Outcome (Unit {0}) × E)
          → Yields w e (suc (w.lent e)) (w.in_tx e) (w.lent e) (w.in_tx e) r
          → Looks w e
              (w.lent e)
              false
              (and_then d r λ e1.
                deferred_release d (and_then d (start e1) λ e2. deferred_rollback d (body e2))).1
      acquired (done u, b) y =
          begun b (start b)
            (record { lends = y.lends; tx_state = y.tx_state ∙ idle; committed = y.committed })
            (starts b)
      acquired (fault t, b) y = record {
        lends = y.lends;
        tx_state = y.tx_state ∙ idle;
        committed = y.committed;
      }

  stays_from :
      (a : E) (n : ℕ) (fn : Action A E)
      → StaysInside fn
      → (b : E) → Looks w a n true b
      → Looks w a n true (fn b).1
  stays_from a n fn stays b p =
      let q = stays b p.tx_state in
      record {
        lends = q.lends ∙ p.lends;
        tx_state = q.tx_state;
        committed = q.committed ∙ p.committed;
      }

  inside-StaysInside : {fn : Action A E} → IsInside d fn → StaysInside fn
  inside-StaysInside (answers f) e begun = record {
    lends = refl;
    tx_state = begun;
    committed = refl;
  }
  inside-StaysInside (asks s x k steps) e begun =
      let q = laws.queries s e x begun in
      let p = inside-StaysInside (steps e (d.query s e).0) (d.query s e).1 q.tx_state in
      record {
        lends = p.lends ∙ q.lends;
        tx_state = p.tx_state;
        committed = p.committed ∙ q.committed;
      }

  -- An index experiment leaves no trace on any path, whichever call fails: afterwards as many
  -- connections are lent as before, no transaction is open, and the committed catalog is the same, if
  -- the timeout and the index are set by plain statements, and the function that measures sends only
  -- EXPLAIN queries.
  pub with_hypothetical_index-leaves-no-trace :
      (set_timeout ddl : Bytes) (fn : Action A E) (e : E)
      → is_plain set_timeout ≡ true
      → is_plain ddl ≡ true
      → w.in_tx e ≡ false
      → IsInside d fn
      → Looks w e (w.lent e) false (with_hypothetical_index d set_timeout ddl fn e).1
  unfolding with_hypothetical_index
  with_hypothetical_index-leaves-no-trace set_timeout ddl fn e plain_timeout plain_ddl idle inside =
      framed d.begin
        (λ e2.
          and_then d (d.exec set_timeout e2)
            λ e3. and_then_wrapped d create_prefix (d.exec ddl e3) fn)
        e laws.begins idle
        (λ b p.
          then_inside e b _ (d.exec set_timeout b) _ p
            (laws.executes set_timeout b plain_timeout p.tx_state)
            (λ c q.
              then_inside_wrapped create_prefix e c _ (d.exec ddl c) fn q
                (laws.executes ddl c plain_ddl q.tx_state)
                (stays_from e _ fn (inside-StaysInside inside))))

  -- Likewise a read-only run.
  read_only-leaves-no-trace :
      (set_timeout : Bytes) (fn : Action A E) (e : E)
      → is_plain set_timeout ≡ true
      → w.in_tx e ≡ false
      → IsInside d fn
      → Looks w e (w.lent e) false (read_only d set_timeout fn e).1
  unfolding read_only
  read_only-leaves-no-trace set_timeout fn e plain_timeout idle inside =
      framed d.begin_read_only (λ e2. and_then d (d.exec set_timeout e2) fn) e laws.begins_read_only
        idle
        (λ b p.
          then_inside e b _ (d.exec set_timeout b) fn p
            (laws.executes set_timeout b plain_timeout p.tx_state)
            (stays_from e _ fn (inside-StaysInside inside)))
