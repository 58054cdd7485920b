-- ===== src/Lib.antt =====
-- OpsPilot is an after-sales agent. A language model answers questions and names tools; every write
-- that it asks for waits for the user's confirmation. This library models the Python program's own
-- logic and shows what its guards give.
--
-- The parts, the files that model them, and the code:
--
-- - Actions (pending_actions.py, action_models.py, tickets.py): the store of writes that wait for a
--   confirmation. `PendingActionStore.confirm` is `confirm_action`, and so on; a method is a function
--   from the store to what it returns or raises, with the store afterwards (Prelude/Exec).
-- - Runs (checkpoint_store.py, checkpoint_models.py): resumable runs over that store, with one run for
--   each session and idempotency key.
-- - Redis (redis_checkpoint_store.py): the same two stores in one Redis database of texts. JSON is a
--   codec, an argument of the model with its round trip; Redis/Tests builds a concrete one.
-- - Evidence (evidence_review.py, grounding_policy.py): the check of a reviewer's verdict against the
--   passages, and the citations of an answer.
-- - Agent (agent_graph.py with tool_policy.py and the records of return_draft_client.py): the graph of
--   nodes. Agent/State has the state and the services that the nodes call; Agent/Model, Agent/Read and
--   Agent/Writes have the nodes; Agent/Graph the edges and the loop; Agent/Api and Agent/Refresh the
--   functions that the HTTP API calls, over the saved threads of all users.
-- - Context (model_context.py): what is removed from a conversation that does not fit the model.
-- - Retry (retry_policy.py): the attempts of one model request.
-- - RateLimit (model_rate_limit.py): the quota of model requests in one Redis key.
-- - Portal (portal_store.py): the database of the customer portal, its rows as lists and maps by primary
--   key. Portal/Turns has the turns of a conversation, Portal/Conversations the conversations and images,
--   Portal/Accounts the accounts and sessions. Portal/Step is the relation of what a call can do, and
--   Portal/Calls a sequence of calls, Portal/Reads what is read. Portal/Api (portal_api.py) is an action
--   on a turn and the synchronisation of a turn, over the tables and over any runs of the agent;
--   Portal/Api/Send is sending a question, over any agent, models and memory, and Portal/Api/Followup the
--   question that continues an earlier one, over its regular expressions.
-- - Evaluation (agent_evaluation.py, evaluation_regression.py): the verdict on a run of the agent, the
--   totals of a batch, and the gate that compares two reports.
--
-- How they interact: a node of the agent proposes, confirms and cancels by the action store; a run
-- confirms and cancels by it too; the Redis stores replace the in-memory ones. A turn of the portal is
-- the thread of the agent with its identifier; its status is what the agent's run returned.
--
-- Bounds and fuel: the graph's loop takes LangGraph's limit of 25 steps as fuel, and
-- Agent/Graph/Terminates shows that more changes nothing; the digits of a page number are printed with
-- one more than the number as fuel, which is more than its digits.
--
-- What is assumed: a method under a lock is one step, and so is a transaction of the portal, which takes
-- the locks of the rows that it writes and is rolled back if it raises. LangGraph runs nodes one after the other, saves
-- the state with the next node after each, and stops at an `interrupt` until it is resumed; a node that
-- raises leaves the state before it. Identifiers, the chat runner, the model, the tools, the reviewer
-- and Java's services are arguments, and so are the parsers of pydantic and the rules that are regular
-- expressions on a question.
--
-- Not modelled: prompts, the HTTP clients and the endpoints of main.py, SQL, lock timeouts, durations, the
-- offline mock gateway of the agent, retrieval, the portal's passwords, the choice of the history that a
-- model sees, the runners of the evaluations, documents and the Java service.
pub mod Prelude
pub mod Actions
pub mod Agent
pub mod Context
pub mod Evaluation
pub mod Evidence
pub mod Portal
pub mod RateLimit
pub mod Redis
pub mod Retry
pub mod Runs
