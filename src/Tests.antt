-- ===== src/Tests.antt =====
-- Runs of the model on concrete data, and the theorems at inputs that meet their hypotheses.
mod WireTests
mod DecimalTests
mod RequestTests
mod StatementTests
mod TransactionTests
mod NamesTests
mod DateTimeTests
mod DatesTests
mod PayloadsTests
mod RowsTests
mod RepliesTests
mod SqlTests
mod GeneratedKeysTests
mod StatementCacheTests
mod ParametersTests
mod ExecutionTests
mod DescribeTests
mod OptionsTests
