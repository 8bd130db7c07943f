-- ===== src/Inventory.antt =====
-- src/xray_e2e_prober/inventory.py: the checks that follow from the configuration and the accepted
-- generations of the sources. SHA-256 is an argument, as are the matchers of the assignments. A set
-- of tags is a list, of which only the membership is read. The text tests of ids in the models' own
-- validators are not repeated, since all ids here stand in validated models.
pub mod Compile
pub mod Justified
pub mod Limits
pub mod Complete
pub mod Tests
