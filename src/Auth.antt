-- ===== src/Auth.antt =====
-- server_auth.py and download_auth.py: the signed tokens that the scooling backend sends. The
-- environment, the clock in whole seconds and the codecs are parameters.
pub mod Tokens
pub mod Ingest
pub mod Download
pub mod Laws
pub mod Grants
pub mod Refusals
