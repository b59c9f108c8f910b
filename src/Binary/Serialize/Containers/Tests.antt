-- ===== src/Binary/Serialize/Containers/Tests.antt =====
-- The results on the containers of include/binary/serialize at concrete contents.
