-- ===== src/Router/Tests.antt =====
-- A request to transport/router.go whose captured segment holds an escaped slash.
use cloudrig.Prelude.{List, some, []}
use cloudrig.Prelude.Bytes.{codes}
use cloudrig.Router.{Route, handle, segments, serve}
use cloudrig.Router.Serving.{Answers, serve-Answers}

abbrev routes : List Route
routes =
    handle (codes "GET") (codes "/b/{bucket}") 1 (handle (codes "POST") (codes "/b/{bucket}") 0 [])

serve-Answers_example :
    Answers
      (λ s. some s)
      (codes "GET")
      (segments (codes "/b/a%2Fb"))
      routes
      (serve (λ s. some s) (codes "GET") (codes "/b/a%2Fb") routes)
serve-Answers_example = serve-Answers (λ s. some s) (codes "GET") (codes "/b/a%2Fb") routes
