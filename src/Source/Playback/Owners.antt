-- ===== src/Source/Playback/Owners.antt =====
-- Who holds the buffers of a source of spa/plugins/fits/source.c, without regard to how the pool stores them.
use mathlib.Core.Option
use mathlib.Core.Path.{subst}
use pipewireao_spa_plugin_fi.Base.{
  ℕ, ◌≡◌, ◌≢◌, sym, ap, ◌∙◌, false, Option, some, List, set, get_elem?, get_elem?-lt,
  get_elem?-set_self, get_elem?-set_ne, ℕ_discrete,
}
use pipewireao_spa_plugin_fi.Pool
use pipewireao_spa_plugin_fi.Source.{Impl}
use pipewireao_spa_plugin_fi.Source.Playback.Ended.{Ended, dropped, delivered}

-- Who holds each buffer: nobody, the producer inside a pass, or the host.
abbrev pub Owners : Type 0
Owners = ℕ → Option Pool.BufferState

-- One buffer changes hands, or none.
pub data Turn (from to : Pool.BufferState) (Is : ℕ → Type 0) (h h' : Owners) : Type 0 where
  stays : ((j : ℕ) → h' j ≡ h j) → Turn from to Is h h'
  moves :
      (id : ℕ)
      → Is id
      → h id ≡ some from
      → h' id ≡ some to
      → ((j : ℕ) → id ≢ j → h' j ≡ h j)
      → Turn from to Is h h'

module _ {Metas : Type 0} where
  abbrev pub owner_in : List (Pool.Slot Metas) → Owners
  owner_in slots i = Option.map (λ s. s.state) (get_elem? slots i)

  unfoldable pub owners : Pool.Pool Metas → Owners
  owners p i = owner_in p.slots i

  -- The buffer that the host has left in the io area, and the one that is announced there.
  abbrev pub IsLeft : Impl Metas → ℕ → Type 0
  IsLeft self id =
      (io : Pool.Io) × (self.io ≡ some io)
      × (io.buffer_id ≡ some id)
      × (Pool.is_have_data io.status ≡ false)

  abbrev pub IsAnnounced : Impl Metas → ℕ → Type 0
  IsAnnounced after id = after.io ≡ some (record { status = Pool.have_data; buffer_id = some id })

  -- A pass of the abstract protocol: the host may give back the buffer that it was told of, and then one free
  -- buffer may go to the host.
  pub record IsPass (self after : Impl Metas) : Type 0 where
    pub between : Owners
    pub back : Turn Pool.published Pool.available (IsLeft self) (owners self.pool) between
    pub out : Turn Pool.available Pool.published (IsAnnounced after) between (owners after.pool)

  module _ (slots : List (Pool.Slot Metas)) (i : ℕ) (s t : Pool.Slot Metas)
      (found : get_elem? slots i ≡ some t) where
    pub set-owner : owner_in (set slots i s) i ≡ some s.state
    set-owner =
        ap (Option.map (λ u. u.state)) (get_elem?-set_self slots i s (get_elem?-lt slots i found))

    pub set-others : (j : ℕ) → i ≢ j → owner_in (set slots i s) j ≡ owner_in slots j
    set-others j ne = ap (Option.map (λ u. u.state)) (get_elem?-set_ne slots i j s ne)

  -- A buffer that was free and was held by the producer is free again or with the host.
  pub Ended-Turn :
      (p : Pool.Pool Metas) (i : ℕ) (s t : Pool.Slot Metas) (io : Option Pool.Io)
      (after : Impl Metas)
      → get_elem? p.slots i ≡ some s
      → s.state ≡ Pool.available
      → get_elem? (set p.slots i t) i ≡ some t
      → Ended (set p.slots i t) io i i after
      → Turn Pool.available Pool.published (IsAnnounced after) (owners p) (owners after.pool)
  unfolding owners
  Ended-Turn p i s t io after found free held e =
      let was : owner_in p.slots i ≡ some Pool.available =
        ap (Option.map (λ u. u.state)) found ∙ ap some free in
      let again : (u : Pool.Slot Metas) (j : ℕ)
          → i ≢ j
          → owner_in (set (set p.slots i t) i u) j ≡ owner_in p.slots j =
        λ u j ne.
          set-others (set p.slots i t) i u t held j ne ∙ set-others p.slots i t s found j ne in
      elim e [
        | delivered u out io' same ↦
            moves i io' was
              (ap (λ l. owner_in l i) same ∙ set-owner (set p.slots i t) i u t held ∙ ap some out)
              (λ j ne. ap (λ l. owner_in l j) same ∙ again u j ne)
        | dropped u back io' same ↦ stays (λ j. elim (ℕ_discrete i j) [
          | no ne ↦ ap (λ l. owner_in l j) same ∙ again u j ne
          | yes here ↦
              subst (λ k. owner_in after.pool.slots k ≡ owner_in p.slots k) here
                (ap (λ l. owner_in l i) same
                  ∙ set-owner (set p.slots i t) i u t held
                  ∙ ap some back
                  ∙ sym was)
        ])
      ]
