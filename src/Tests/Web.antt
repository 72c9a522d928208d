-- ===== src/Tests/Web.antt =====
-- An example for the handler of the user interface.
