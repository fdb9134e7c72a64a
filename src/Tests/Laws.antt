-- ===== src/Tests/Laws.antt =====
-- The small platform behaves as the hypotheses of the theorems say.
use sso_operator.Base.{
  Bool, true, false, Option, none, some, if◌then◌else◌, ◌≡◌, refl, arith, ◌≢◌, ℕ, zero, suc, length,
}
use sso_operator.Base.Text.{Str, same, same_iff}
use sso_operator.Base.Run.{reply, Outcome, ok, err, panic, Run}
use sso_operator.Objects.{StrMap, Secret, OidcClient, CreateClientResp, UpdateClientReq}
use sso_operator.Dex.View.{View, DexLaws, overwrite}
use sso_operator.Kube.Wait.Polling.{PollsSoundly, Polls, passed, refused, crashed, gave_up}
use sso_operator.Operator.Config.Stored.{SecretView, SecretLaws}
use sso_operator.Proxy.CookieKey.Alphabet.{FillsBuffer}
use sso_operator.Proxy.Upstream.AppName.{RangesMaps}
use sso_operator.Tests.Sample.{
  Answers, sample, poll_once, zeros, secret_with, create_once, update_stored, delete_stored,
}

poll_once-Polls :
    {S : Type 0} (condition : Run S Bool) (c : S)
    → Polls condition (poll_once (condition c)).0 (poll_once (condition c)).1 c
poll_once-Polls condition c = go (condition c).0 (condition c).1 refl
  where
    go :
        (o : Outcome Bool) (t : _)
        → condition c ≡ (o, t)
        → Polls condition (poll_once (o, t)).0 (poll_once (o, t)).1 c
    go (ok true) t e = passed e refl
    go (ok false) t e = gave_up _ refl
    go (err x) t e = refused x e refl
    go panic t e = crashed e refl

module _ (answers : Answers) where
  pub sample_polls : PollsSoundly (sample answers)
  sample_polls = record {
    polls = λ interval timeout condition c. poll_once-Polls condition c;
    polls_immediate = λ interval timeout condition c. poll_once-Polls condition c;
  }

  pub sample_fills : FillsBuffer (sample answers)
  sample_fills n c c' bytes h = ground (arith, length-zeros n)
    where
      length-zeros : (n : ℕ) → length (zeros n) ≡ n
      length-zeros zero = refl
      length-zeros (suc n) = ground (arith, length-zeros n)

  pub sample_ranges : RangesMaps (sample answers)
  sample_ranges m c u = (u, λ k. refl)

  -- The one client, under its id.
  abbrev pub sample_clients : View (sample answers)
  sample_clients none j = none
  sample_clients (some c) j = if same j c.id then some c else none

  pub sample_dex : DexLaws (sample answers) sample_clients
  sample_dex = record {
    creates = created;
    creates_keep = kept;
    delete_elsewhere = spared;
    deletes = deleted;
    updates = updated;
    update_elsewhere = elsewhere;
  }
    where
      created :
          (client c : OidcClient) (d d' : Option OidcClient) (resp : CreateClientResp)
          → create_once client d ≡ (reply resp, d')
          → resp.already_exists ≡ false
          → resp.client ≡ some c
          → (sample_clients d c.id ≡ none)
            × ((j : Str)
                → sample_clients d' j ≡ (if same j c.id then some c else sample_clients d j))
      created client c none d' resp h e f = (refl, λ j. ground arith)
      created client c (some old) d' resp h e f = absurd (ground arith)

      kept :
          (client k : OidcClient) (d : Option OidcClient) (j : Str)
          → sample_clients d j ≡ some k
          → sample_clients (create_once client d).1 j ≡ some k
      kept client k none j e = cc
      kept client k (some c) j e = e

      spared :
          (id : Str) (d : Option OidcClient) (j : Str)
          → same j id ≡ false
          → sample_clients (delete_stored id d).1 j ≡ sample_clients d j
      spared id none j e = refl
      spared id (some c) j e = ground (arith, same_iff c.id id, same_iff j c.id)

      deleted :
          (id : Str) (d d' : Option OidcClient)
          → delete_stored id d ≡ (reply false, d')
          → (j : Str) → sample_clients d' j ≡ (if same j id then none else sample_clients d j)
      deleted id none d' h j = ground arith
      deleted id (some c) d' h j = ground (arith, same_iff c.id id, same_iff j id)

      updated :
          (req : UpdateClientReq) (d d' : Option OidcClient)
          → update_stored req d ≡ (reply false, d')
          → (sample_clients d req.id ≢ none)
            × ((j : Str)
                → sample_clients d' j ≡ (
                    if same j req.id
                    then overwrite (sample answers) req (sample_clients d j)
                    else sample_clients d j))
      updated req none d' h = absurd (ground arith)
      updated req (some c) d' h = (
        λ e. ground (arith, same_iff c.id req.id, same_iff req.id c.id),
        λ j. ground (arith, same_iff c.id req.id, same_iff j c.id),
      )

      elsewhere :
          (req : UpdateClientReq) (d : Option OidcClient) (j : Str)
          → same j req.id ≡ false
          → sample_clients (update_stored req d).1 j ≡ sample_clients d j
      elsewhere req none j e = refl
      elsewhere req (some c) j e = ground (arith, same_iff c.id req.id, same_iff j c.id)

  abbrev pub sample_content : SecretView (sample answers)
  sample_content c ns = c

  pub sample_secrets : SecretLaws (sample answers) sample_content
  sample_secrets = record { reads = λ k ns. read; writes = λ k ns c c' s s' n e h. ground arith }
    where
      read :
          (c c' : Option StrMap) (s : Secret)
          → secret_with c c ≡ (reply s, c')
          → c' ≡ some s.content
      read none c' s h = absurd (ground arith)
      read (some m) c' s h = ground arith
