-- ===== src/Client/Factory/Operations.antt =====
-- Any sequence of calls of the factory.
use sso_operator.Base.{ℕ, List, [], ◌∷◌, ◌++◌}
use sso_operator.Base.Text.{Str}
use sso_operator.Client.Library.{Library}
use sso_operator.Client.Factory.{TypeMap, Factory, start, informer_for}

module _ (L : Library) where
  open L use {Clientset, Informer}

  -- A call: the informer of a type, with the function that makes one, or `Start`, with what `range`
  -- makes of the map of informers.
  pub data Op : Type 0 where
    asks : Str → (Clientset → ℕ → Informer) → Op
    starts : (TypeMap Informer → TypeMap Informer) → Op

  -- The factory behind the calls, and the informers whose `Run` they started, in order.
  unfoldable pub run : List Op → Factory L → Factory L × TypeMap Informer
  run [] f = (f, [])
  run (asks t new_func ∷ ops) f = run ops (informer_for L t new_func f).1
  run (starts order ∷ ops) f =
      let (f', now) = start L (order f.informers) f in
      let (f'', later) = run ops f' in (f'', now ++ later)
