-- ===== src/Source/Port/Buffers.antt =====
-- The buffers that `port_use_buffers` takes on.
use pipewireao_spa_plugin_fi.Base.{
  ℕ, zero, suc, ◌+◌, ◌≤◌, ◌≡◌, ◌≢◌, refl, ap, ◌∙◌, inl, inr, true, false, Option, none, some, List,
  [], ◌∷◌, length, get_elem?, arith, Option-cases,
}
use mathlib.Core.Path.{subst}
use pipewireao_spa_plugin_fi.Errno.{ok}
use pipewireao_spa_plugin_fi.ImageFrame
use pipewireao_spa_plugin_fi.Pool
use pipewireao_spa_plugin_fi.Pool.Take.{IsPool}
use pipewireao_spa_plugin_fi.Source.{Impl, output_size}
use pipewireao_spa_plugin_fi.Source.Port.{
  PortId, given, is_memory, is_usable, all_usable, slots_from, assign, use_buffers,
}

module _ {Metas : Type 0} where
  slot-at :
      (bs : List (Option (ImageFrame.Buffer Metas))) (k i : ℕ) (s : Pool.Slot Metas)
      → get_elem? (slots_from k bs) i ≡ some s
      → (s.id ≡ k + i) × (s.state ≡ Pool.available) × (get_elem? bs i ≡ some s.buffer)
  unfolding slots_from
  slot-at [] k i s e = cc
  slot-at (b ∷ bs) k zero s e = ground arith
  slot-at (b ∷ bs) k (suc i) s e =
      let rest = slot-at bs (k + 1) i s e in (omega (arith, rest.0), rest.1, rest.2)

  length-slots_from :
      (bs : List (Option (ImageFrame.Buffer Metas))) (k : ℕ) → length (slots_from k bs) ≡ length bs
  unfolding slots_from
  length-slots_from [] k = refl
  length-slots_from (b ∷ bs) k = ap suc (length-slots_from bs (k + 1))

  -- A buffer that one publication of `required` bytes can fill.
  pub record IsUsable (required : ℕ) (b : ImageFrame.Buffer Metas) : Type 0 where
    pub header : given b.header ≡ true
    pub data_ : ImageFrame.Data
    pub data_found : get_elem? b.datas 0 ≡ some data_
    pub mapped : given data_.memory ≡ true
    pub in_memory : is_memory data_.kind ≡ true
    pub large : required ≤ data_.maxsize
    pub chunk : given data_.chunk ≡ true

  usable-at :
      (required : ℕ) (bs : List (Option (ImageFrame.Buffer Metas))) (i : ℕ)
      (o : Option (ImageFrame.Buffer Metas))
      → all_usable required bs ≡ true
      → get_elem? bs i ≡ some o
      → is_usable required o ≡ true
  unfolding all_usable
  usable-at required [] i o h e = cc
  usable-at required (b ∷ bs) zero o h e = ground arith
  usable-at required (b ∷ bs) (suc i) o h e = usable-at required bs i o (ground arith) e

  is_usable-IsUsable :
      (required : ℕ) (o : Option (ImageFrame.Buffer Metas))
      → is_usable required o ≡ true
      → (b : ImageFrame.Buffer Metas) × (o ≡ some b) × IsUsable required b
  unfolding is_usable
  is_usable-IsUsable required none h = cc
  is_usable-IsUsable required (some b) h = elim (Option-cases (get_elem? b.datas 0)) [
    | inl e ↦ ground arith
    | inr (d, e) ↦ (
      b,
      refl,
      record {
        header = ground arith;
        data_ = d;
        data_found = e;
        mapped = ground arith;
        in_memory = ground arith;
        large = ground arith;
        chunk = ground arith;
      },
    )
  ]

  -- A new set of buffers on a stopped, negotiated port that had none.
  pub record Assigned (self : Impl Metas) (bs : List (Option (ImageFrame.Buffer Metas)))
      (after : Impl Metas) : Type 0 where
    pub stopped : (self.started ≡ false) × (after.started ≡ false)
    pub negotiated : (self.have_format ≡ true) × (after.have_format ≡ true)
    pub unused : length self.pool.slots ≡ 0
    pub enough : 2 ≤ length bs
    pub pool_ok : IsPool after.pool
    pub all_free :
        (i : ℕ) (s : Pool.Slot Metas)
        → get_elem? after.pool.slots i ≡ some s
        → s.state ≡ Pool.available
    pub all_there : length after.pool.slots ≡ length bs
    pub usable :
        (i : ℕ) (s : Pool.Slot Metas)
        → get_elem? after.pool.slots i ≡ some s
        → (b : ImageFrame.Buffer Metas) × (s.buffer ≡ some b)
          × (get_elem? bs i ≡ some (some b))
          × IsUsable (output_size self) b

  assigned-checks :
      (self : Impl Metas) (port : PortId) (bs : List (Option (ImageFrame.Buffer Metas)))
      (after : Impl Metas)
      → use_buffers self port bs ≡ (ok tt, after)
      → length bs ≢ 0
      → (self.started ≡ false)
        × (self.have_format ≡ true)
        × (length self.pool.slots ≡ 0)
        × (2 ≤ length bs)
        × (length bs ≤ 64)
        × (all_usable (output_size self) bs ≡ true)
        × (assign self bs ≡ after)
  unfolding use_buffers
  assigned-checks self port bs after e ne = ground arith

  assign-Assigned :
      (self : Impl Metas) (bs : List (Option (ImageFrame.Buffer Metas)))
      → self.started ≡ false
      → self.have_format ≡ true
      → length self.pool.slots ≡ 0
      → 2 ≤ length bs
      → length bs ≤ 64
      → all_usable (output_size self) bs ≡ true
      → Assigned self bs (assign self bs)
  unfolding assign
  assign-Assigned self bs off format empty enough few checked =
      let count = length-slots_from bs 0 in
      record {
        stopped = (off, off);
        negotiated = (format, format);
        unused = empty;
        enough = enough;
        pool_ok = record {
          few = omega (arith, count);
          hint_inside = inl (omega (arith, count, enough));
          own_id = λ i s e. omega (arith, (slot-at bs 0 i s e).0);
        };
        all_free = λ i s e. (slot-at bs 0 i s e).1;
        all_there = count;
        usable = λ i s e.
            let found = (slot-at bs 0 i s e).2 in
            let (b, same, v) =
              is_usable-IsUsable (output_size self) s.buffer
                (usable-at (output_size self) bs i s.buffer checked found) in
            (b, same, found ∙ ap some same, v);
      }

  -- `port_use_buffers` takes on a set of buffers only on a stopped port with a format and no buffers; each
  -- buffer is then free, has its place in the array as its id, and has a Header slot and a first data
  -- area in memory with a chunk and room for a whole output.
  pub use_buffers-Assigned :
      (self : Impl Metas) (port : PortId) (bs : List (Option (ImageFrame.Buffer Metas)))
      (after : Impl Metas)
      → use_buffers self port bs ≡ (ok tt, after)
      → length bs ≢ 0
      → Assigned self bs after
  use_buffers-Assigned self port bs after e ne =
      let (off, format, empty, enough, few, checked, same) =
        assigned-checks self port bs after e ne in
      subst (Assigned self bs) same (assign-Assigned self bs off format empty enough few checked)
