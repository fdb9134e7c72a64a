-- ===== src/Client/Factory/Sharing.antt =====
-- What `InformerFor` gives for a type, again and again.
use sso_operator.Base.{ℕ, ◌≡◌, refl, Option, none, some, List, [], ◌∷◌, arith}
use sso_operator.Base.Text.{Str, same_iff, same_refl}
use sso_operator.Base.Dict.{lookup, lookup-put}
use sso_operator.Client.Library.{Library}
use sso_operator.Client.Factory.{Factory, start, informer_for, resync_period}
use sso_operator.Client.Factory.Operations.{Op, asks, starts, run}

module _ (L : Library) where
  open L use {Clientset, Informer}

  informer_for-found :
      (t : Str) (new_func : Clientset → ℕ → Informer) (f : Factory L) (i : Informer)
      → lookup t f.informers ≡ some i
      → informer_for L t new_func f ≡ (i, f)
  unfolding informer_for
  informer_for-found t new_func f i e = ground arith

  informer_for-keeps :
      (t u : Str) (new_func : Clientset → ℕ → Informer) (f : Factory L) (i : Informer)
      → lookup t f.informers ≡ some i
      → lookup t (informer_for L u new_func f).1.informers ≡ some i
  unfolding informer_for
  informer_for-keeps t u new_func f i e = go (lookup u f.informers) refl
    where
      go :
          (o : Option Informer)
          → lookup u f.informers ≡ o
          → lookup t (informer_for L u new_func f).1.informers ≡ some i
      go none absent = ground (
        arith,
        same_iff u t,
        lookup-put u t (new_func f.client (resync_period L u f)) f.informers,
      )
      go (some x) there = ground arith

  run-keeps :
      (ops : List (Op L)) (t : Str) (f : Factory L) (i : Informer)
      → lookup t f.informers ≡ some i
      → lookup t (run L ops f).0.informers ≡ some i
  unfolding run start
  run-keeps [] t f i e = e
  run-keeps (asks u new_func ∷ ops) t f i e =
      run-keeps ops t (informer_for L u new_func f).1 i (informer_for-keeps t u new_func f i e)
  run-keeps (starts order ∷ ops) t f i e = run-keeps ops t (start L (order f.informers) f).0 i e

  informer_for-stores :
      (t : Str) (new_func : Clientset → ℕ → Informer) (f : Factory L)
      → lookup t (informer_for L t new_func f).1.informers ≡ some ((informer_for L t new_func f).0)
  unfolding informer_for
  informer_for-stores t new_func f =
      ground
        (arith, same_refl t, lookup-put t t (new_func f.client (resync_period L t f)) f.informers)

  -- Once `InformerFor` has given the informer of a type, it gives the same one after any further
  -- calls of the factory, whatever function to make one it is given, and changes nothing.
  pub informer_for_shared :
      (t : Str) (new_func later : Clientset → ℕ → Informer) (f : Factory L) (ops : List (Op L))
      → informer_for L t later (run L ops (informer_for L t new_func f).1).0
        ≡ ((informer_for L t new_func f).0, (run L ops (informer_for L t new_func f).1).0)
  informer_for_shared t new_func later f ops =
      informer_for-found t later _ _ (run-keeps ops t _ _ (informer_for-stores t new_func f))
