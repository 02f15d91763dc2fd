-- ===== src/Auth.antt =====
-- dmlf/communication/auth.py: the interceptors that sign and check RPCs.
--
-- `Client` has the agent's side and `Server` the manager's. The four intercept methods of a client
-- interceptor differ in the kind of call alone, and change the metadata in the same way.
pub mod Client
pub mod Server
pub mod Checks
