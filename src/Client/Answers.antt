-- ===== src/Client/Answers.antt =====
-- The result of the future of an operation of the client.
use gee_h.Prelude.{List, [], ◌∷◌, if◌then◌else◌}
use gee_h.Effect.{Completion}
use gee_h.Client.{ClientAsyncOp, completed}

-- The reports of the completion queue on an operation: it calls the lambda only while the call is in
-- flight.
unfoldable pub answered :
    {Q R : Type 0} → List (Completion R) → ClientAsyncOp Q R → ClientAsyncOp Q R
unfolding completed
answered [] op = op
answered (c ∷ cs) op = answered cs (if op.in_flight then completed c op else op)
