-- ===== src/SignIn/Serve.antt =====
use psychron.Accounts.{Client, Hashes, Store}
use psychron.Accounts.Gate.{Enrolment}
use psychron.Base.{List, Option, String, [], ◌∷◌}
use psychron.Instant.{Instant}
use psychron.SignIn.{recovery, login, logout, totp}
use psychron.SignIn.Answers.{accept, inspect}

-- backend/src/psychron/api/routes_auth.py: any request, and any number of them. The bodies of the
-- answers are forgotten; what the requests do to the tables is kept.

pub data Request : Type 0 where
  -- the two strings of the body, the session token that is drawn, and the client
  to_login : String → String → String → Client → Request
  -- the pending cookie, the code and the client
  to_totp to_recovery : Option String → String → Client → Request
  -- the session cookie
  to_logout : Option String → Request
  -- the link
  to_inspect : String → Request
  -- what is enrolled, the link, the password, and the pending token that is drawn
  to_accept : Enrolment → String → String → String → Request

module _ (hashes : Hashes) (set_of : List String → List String) where
  -- the tables after one request, whether it is answered or an exception escapes
  unfoldable pub after : Request → Instant → Store → Store
  unfolding login totp recovery logout inspect accept
  after (to_login identifier password token client) now store =
      (login hashes set_of identifier password token client now store).1
  after (to_totp pending code client) now store =
      (totp hashes set_of pending code client now store).1
  after (to_recovery pending code client) now store =
      (recovery hashes set_of pending code client now store).1
  after (to_logout session) now store = (logout hashes set_of session now store).1
  after (to_inspect token) now store = (inspect hashes token now store).1
  after (to_accept e token password pending_token) now store =
      (accept hashes e token password pending_token now store).1

  unfoldable pub serve : List (Request × Instant) → Store → Store
  unfolding after
  serve [] store = store
  serve ((request, now) ∷ requests) store = serve requests (after request now store)
