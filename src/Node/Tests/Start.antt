-- ===== src/Node/Tests/Start.antt =====
-- The start of a node, without a configured key.
