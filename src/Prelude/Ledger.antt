-- ===== src/Prelude/Ledger.antt =====
-- Histories of a component that owns at most one open item: calls made one after the other, with
-- the items that they open and close.
use mathlib.Core.Path.{◌≡◌, sym, ap, ◌∙◌}
use mathlib.Core.List.{List, [], ◌∷◌, ◌++◌, append_assoc, append-nil}

module _ {W K I : Type 0} (step : K → W → W) (opens closes : K → W → List I) where
  pub record History : Type 0 where
    pub opened : List I
    pub closed : List I
    pub final : W

  unfoldable pub replay : W → List K → History
  replay w [] = record { opened = []; closed = []; final = w }
  replay w (k ∷ ks) =
      let rest = replay (step k w) ks in
      record {
        opened = opens k w ++ rest.opened;
        closed = closes k w ++ rest.closed;
        final = rest.final;
      }

  -- If each call balances the open items, so does every history.
  pub replay_balance :
      (held : W → List I)
      → ((k : K) (w : W) → held w ++ opens k w ≡ closes k w ++ held (step k w))
      → (w : W) (ks : List K)
      → held w ++ (replay w ks).opened ≡ (replay w ks).closed ++ held (replay w ks).final
  unfolding replay
  replay_balance held law w [] = append-nil _
  replay_balance held law w (k ∷ ks) =
      let rest = replay (step k w) ks in
      sym (append_assoc (held w) (opens k w) rest.opened)
      ∙ ap (λ (ids : List I). ids ++ rest.opened) (law k w)
      ∙ append_assoc (closes k w) (held (step k w)) rest.opened
      ∙ ap (λ (ids : List I). closes k w ++ ids) (replay_balance held law (step k w) ks)
      ∙ sym (append_assoc (closes k w) rest.closed (held rest.final))

  -- What every call keeps, every history keeps.
  pub replay_keeps :
      (P : W → Type 0)
      → ((k : K) (w : W) → P w → P (step k w))
      → (w : W) (ks : List K) → P w
      → P (replay w ks).final
  unfolding replay
  replay_keeps P law w [] h = h
  replay_keeps P law w (k ∷ ks) h = replay_keeps P law (step k w) ks (law k w h)
