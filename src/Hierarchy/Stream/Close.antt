-- ===== src/Hierarchy/Stream/Close.antt =====
-- src/sched/hierarchy/hrc_stream.c, LpelStreamClose and LpelStreamReplace: when the descriptors are
-- free for later use.
use lpel.Hierarchy.Worker.{is_unused}
use lpel.Base.{
  ◌≡◌, ◌≢◌, refl, ap, sym, ◌∙◌, arith, true, false, List, ◌∷◌, ◌++◌, Ptr, null, assign, assign_self,
  assign_ne, ==_of_ne, store, store-ok, ◌∉◌,
}
use lpel.Base.Run.{ok, fault}
use lpel.Base.Int.{◌-ℤ◌}
use lpel.Hierarchy.Buffer.{is_empty}
use lpel.Hierarchy.Task.{input, output, remove_stream}
use lpel.Hierarchy.Task.Open.{remove_elem-found}
use lpel.Hierarchy.Stream.{put_stream, put_sd, World, give_up, close_destroy, close, replace}

unopened : (f : Ptr → Ptr) (p s : Ptr) → f p ≡ null → assign f s null p ≡ null
unfolding assign
unopened f p s h = ground (arith, h)

module _ {D : Type 0} where
  -- The fields that the end of a stream's life depends on.
  record Closed (sd : Ptr) (w w1 : World D) : Type 0 where
    task_of : w1.tasks.task_of ≡ assign w.tasks.task_of sd null
    stream_of : w1.tasks.stream_of ≡ w.tasks.stream_of
    prod_sd : w1.tasks.prod_sd ≡ w.tasks.prod_sd
    in_streams : w1.tasks.in_streams ≡ w.tasks.in_streams
    mode : w1.mode ≡ w.mode
    buffers : w1.buffers ≡ w.buffers

  close_writer :
      (w : World D) (sd : Ptr) (pre post : List Ptr)
      → w.mode sd ≡ output
      → w.tasks.out_streams (w.tasks.task_of sd) ≡ pre ++ (sd ∷ post)
      → sd ∉ pre
      → (w1 : World D) × (close sd false w ≡ ok w1) × Closed sd w w1
  unfolding close remove_stream
  close_writer w sd pre post em el out =
      let t = w.tasks.task_of sd in
      (
        record w {
          tasks = record w.tasks {
            rec_limit =
                assign w.tasks.rec_limit t (w.tasks.rec_limit t -ℤ w.tasks.rec_limit_factor t);
            out_streams = assign w.tasks.out_streams t (pre ++ post);
            task_of = assign w.tasks.task_of sd null;
          };
          contexts = put_sd (w.tasks.worker_context t) sd w.contexts;
        },
        rw (em, el, remove_elem-found sd pre post out) refl,
        record {
          task_of = refl;
          stream_of = refl;
          prod_sd = refl;
          in_streams = refl;
          mode = refl;
          buffers = refl;
        },
      )

  close_reader :
      (w : World D) (sd other : Ptr) (pre post : List Ptr)
      → w.mode sd ≡ input
      → is_empty (w.buffers (w.tasks.stream_of sd)) ≡ ok true
      → w.tasks.prod_sd (w.tasks.stream_of sd) ≡ other
      → other ≢ null
      → w.tasks.in_streams (w.tasks.task_of sd) ≡ pre ++ (sd ∷ post)
      → sd ∉ pre
      → (w1 : World D) × (close sd true w ≡ ok w1)
        × (w1.tasks.task_of ≡ assign w.tasks.task_of sd null)
        × (w1.tasks.stream_of ≡ assign (assign w.tasks.stream_of other null) sd null)
  unfolding close close_destroy give_up remove_stream
  close_reader w sd other pre post em ee ep ne el out =
      let t = w.tasks.task_of sd in
      let s = w.tasks.stream_of sd in
      let wc = w.tasks.worker_context t in
      (
        record w {
          tasks = record w.tasks {
            stream_of = assign (assign w.tasks.stream_of other null) sd null;
            prod_sd = assign w.tasks.prod_sd s null;
            cons_sd = assign w.tasks.cons_sd s null;
            in_streams = assign w.tasks.in_streams t (pre ++ post);
            task_of = assign w.tasks.task_of sd null;
          };
          contexts = put_sd wc sd (put_stream wc s w.contexts);
        },
        rw
            (
              em,
              ee,
              ep,
              store-ok w.tasks.stream_of other null ne,
              em,
              el,
              remove_elem-found sd pre post out,
            )
            refl,
        refl,
        refl,
      )

  -- A stream is empty, the producer's descriptor `sdw` and the consumer's `sdr` are open on it, each
  -- in its task's list. When the producer closes its end and then the consumer closes and destroys
  -- the stream, both calls return, the producer's descriptor is not free for other use before the
  -- second one, and after it both descriptors are.
  pub close_both :
      (w : World D) (s sdw sdr : Ptr) (pre post pre' post' : List Ptr)
      → s ≢ null
      → sdw ≢ null
      → sdr ≢ sdw
      → w.mode sdw ≡ output
      → w.mode sdr ≡ input
      → w.tasks.stream_of sdw ≡ s
      → w.tasks.stream_of sdr ≡ s
      → w.tasks.prod_sd s ≡ sdw
      → w.tasks.out_streams (w.tasks.task_of sdw) ≡ pre ++ (sdw ∷ post)
      → sdw ∉ pre
      → w.tasks.in_streams (w.tasks.task_of sdr) ≡ pre' ++ (sdr ∷ post')
      → sdr ∉ pre'
      → is_empty (w.buffers s) ≡ ok true
      → (w1 : World D) × (w2 : World D) × (close sdw false w ≡ ok w1)
        × (close sdr true w1 ≡ ok w2)
        × (is_unused w1.tasks sdw ≡ false)
        × (is_unused w2.tasks sdw ≡ true)
        × (is_unused w2.tasks sdr ≡ true)
  close_both w s sdw sdr pre post pre' post' ns nw ne mw mr sw sr ps lw ow lr orr empty =
      let (w1, e1, f) = close_writer w sdw pre post mw lw ow in
      let keeps : w1.tasks.task_of sdr ≡ w.tasks.task_of sdr =
        ap (λ g. g sdr) f.task_of ∙ assign_ne w.tasks.task_of sdw sdr null ne in
      let at1 : w1.tasks.stream_of sdr ≡ s = ap (λ g. g sdr) f.stream_of ∙ sr in
      let (w2, e2, t2, s2) =
        close_reader w1 sdr sdw pre' post' (ap (λ g. g sdr) f.mode ∙ mr) (rw (at1, f.buffers) empty)
          (rw (at1, f.prod_sd) ps) nw (rw (keeps, f.in_streams) lr) orr in
      let other : sdw ≢ sdr = λ e. ne (sym e) in
      (
        w1,
        w2,
        e1,
        e2,
        rw (f.stream_of, sw, ==_of_ne s null ns) (ground arith),
        rw
            (
              t2,
              s2,
              assign_ne w1.tasks.task_of sdr sdw null other,
              assign_ne (assign w1.tasks.stream_of sdw null) sdr sdw null other,
              f.task_of,
              assign_self w.tasks.task_of sdw null,
              assign_self w1.tasks.stream_of sdw null,
            )
            refl,
        rw
            (
              t2,
              s2,
              assign_self w1.tasks.task_of sdr null,
              assign_self (assign w1.tasks.stream_of sdw null) sdr null,
            )
            refl,
      )

  -- `LpelStreamReplace` by a stream that is not open for reading, as its documentation wants, goes
  -- through NULL: it writes to the descriptor of the new stream's reader. The old stream is empty and
  -- has a producer.
  pub replace_unopened :
      (w : World D) (sd snew : Ptr)
      → w.mode sd ≡ input
      → is_empty (w.buffers (w.tasks.stream_of sd)) ≡ ok true
      → w.tasks.prod_sd (w.tasks.stream_of sd) ≢ null
      → w.tasks.cons_sd snew ≡ null
      → replace sd snew w ≡ fault
  unfolding replace give_up store
  replace_unopened w sd snew em ee np nc =
      rw
        (
          em,
          ee,
          ==_of_ne (w.tasks.prod_sd (w.tasks.stream_of sd)) null np,
          unopened w.tasks.cons_sd snew (w.tasks.stream_of sd) nc,
        )
        refl
