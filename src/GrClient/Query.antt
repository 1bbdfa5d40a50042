-- ===== src/GrClient/Query.antt =====
-- The SQL texts of gr_client.go, with each run of white space written as one space.
use yet_another_mysql_operat.Prelude.{List, [], ◌∷◌}
use yet_another_mysql_operat.Prelude.Text.{Text, codes}

unfoldable pub gtid_executed : Text
unfolding codes
gtid_executed = codes "SELECT @@GLOBAL.GTID_EXECUTED"

unfoldable pub received_set : Text
unfolding codes
received_set =
    codes
      "SELECT COALESCE(received_transaction_set, '') FROM performance_schema.replication_connection_status WHERE channel_name = 'group_replication_applier' LIMIT 1"

unfoldable pub online_member : Text
unfolding codes
online_member =
    codes
      "SELECT MEMBER_STATE FROM performance_schema.replication_group_members WHERE MEMBER_STATE = 'ONLINE' LIMIT 1"

unfoldable pub own_state : Text
unfolding codes
own_state =
    codes
      "SELECT MEMBER_STATE FROM performance_schema.replication_group_members WHERE MEMBER_ID = @@server_uuid;"

unfoldable pub select_one : Text
unfolding codes
select_one = codes "SELECT 1"

unfoldable pub replication_user : Text
unfolding codes
replication_user = codes "SELECT 1 FROM mysql.user WHERE user='rpl_user' AND host='%' LIMIT 1"

unfoldable pub local_state : Text
unfolding codes
local_state =
    codes
      "SELECT VARIABLE_VALUE FROM performance_schema.global_status WHERE VARIABLE_NAME = 'group_replication_local_state_desc';"

unfoldable pub gtid_subtract : Text
unfolding codes
gtid_subtract = codes "SELECT GTID_SUBTRACT(?, ?)"

unfoldable pub binlog_off : Text
unfolding codes
binlog_off = codes "SET SQL_LOG_BIN=0"

unfoldable pub create_user : Text
unfolding codes
create_user =
    codes "CREATE USER IF NOT EXISTS rpl_user@'%' IDENTIFIED WITH 'caching_sha2_password' BY ?"

unfoldable pub grant : Text
unfolding codes
grant =
    codes
      "GRANT REPLICATION SLAVE, CONNECTION_ADMIN, BACKUP_ADMIN, GROUP_REPLICATION_STREAM ON *.* TO rpl_user@'%'"

unfoldable pub flush : Text
unfolding codes
flush = codes "FLUSH PRIVILEGES"

unfoldable pub binlog_on : Text
unfolding codes
binlog_on = codes "SET SQL_LOG_BIN=1"

unfoldable pub bootstrap_on : Text
unfolding codes
bootstrap_on = codes "SET GLOBAL group_replication_bootstrap_group = ON"

unfoldable pub start_group_replication : Text
unfolding codes
start_group_replication = codes "START GROUP_REPLICATION USER='rpl_user', PASSWORD=?"

unfoldable pub bootstrap_off : Text
unfolding codes
bootstrap_off = codes "SET GLOBAL group_replication_bootstrap_group = OFF"

-- `statements` of `ensureReplicationUser`
unfoldable pub user_statements : List Text
user_statements = binlog_off ∷ create_user ∷ grant ∷ flush ∷ binlog_on ∷ []

-- `statements` of `bootstrapGroup`
unfoldable pub bootstrap_statements : List Text
bootstrap_statements = bootstrap_on ∷ start_group_replication ∷ bootstrap_off ∷ []
