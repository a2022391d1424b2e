-- ===== src/App/Status.antt =====
-- The status codes that a client of `POST /v1/usage` sees, against the contract that
-- app/routers/usage.py opens with.
use flyrank_backend_capstone.Prelude.{ℕ, List, [], ◌∷◌}
use flyrank_backend_capstone.Store.Database.{Database}
use flyrank_backend_capstone.Routers.{UsageReply}
use flyrank_backend_capstone.App.Defs.{usage_body, Response, ok}

-- The module's docstring.
abbrev pub documented : List ℕ
documented = 201 ∷ 200 ∷ 402 ∷ 429 ∷ 404 ∷ 422 ∷ []

abbrev usage_response : UsageReply → Response
usage_response reply = ok reply.status_code (usage_body reply.body)
