-- ===== src/AddPile/Tests.antt =====
-- A pile that the server refuses since the account is to be scanned again.
