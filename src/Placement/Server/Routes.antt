-- ===== src/Placement/Server/Routes.antt =====
-- internal/placement-server/server.go: the cases of a request to a route.
use hiro_adaptive_orchestrat.Base.{
  ◌≡◌, refl, ◌<>◌, Bool, true, false, ◌&&◌, str_eq, [], Result, Error, ok, err, Exit, returned,
}
use hiro_adaptive_orchestrat.Io.{Prog}
use hiro_adaptive_orchestrat.Io.Wp.{Trace, Wp}
use hiro_adaptive_orchestrat.Placement.Server.{Request, Reply, on_post}

abbrev pub is_post : {A : Type 0} → Request A → Bool
is_post req = str_eq req.method "POST"

-- A POST whose body decodes to a value that passes a test.
abbrev pub decodes : {A : Type 0} → (A → Bool) → Request A → Bool
decodes test req = is_post req && elim (req.body) [ err e ↦ false | ok a ↦ test a ]

abbrev pub is_json : {A : Type 0} → Exit (Reply A) → Bool
is_json (returned (Reply.json_reply id a)) = true
is_json _ = false

module _ {A B : Type 0} (k : A → Prog (Exit (Reply B))) (req : Request A)
    (Q : Trace → Exit (Reply B) → Type 0)
    (not_post : is_post req ≡ false → Q [] (returned (Reply.error_reply 405 "method not allowed")))
    (undecoded : (e : Error)
      → is_post req ≡ true
      → req.body ≡ err e
      → Q [] (returned (Reply.error_reply 400 ("invalid request body: " <> e.message))))
    (decoded : (a : A) → is_post req ≡ true → req.body ≡ ok a → Wp (k a) [] Q) where
  posted :
      (post : Bool) (body : Result A)
      → is_post req ≡ post
      → req.body ≡ body
      → Wp (on_post k req) [] Q
  posted false body p b = rw p (not_post p)
  posted true (err e) p b = rw (p, b) (undecoded e p b)
  posted true (ok a) p b = rw (p, b) (decoded a p b)

  pub on_post-cases : Wp (on_post k req) [] Q
  on_post-cases = posted _ _ refl refl
